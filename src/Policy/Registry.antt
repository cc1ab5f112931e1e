-- ===== src/Policy/Registry.antt =====
-- internal/policy/registry.go and errors.go. A method returns the new registry beside its result
-- and runs as one step; each reading of the clock is an argument.
pub mod Sessions
pub mod Sweep
use go_mcp_gateway.Common.{
  ℕ, ◌+◌, ◌*◌, ◌<◌, suc, List, [], ◌∷◌, Option, none, some, String, Bool, true, false, not, length,
  if◌then◌else◌,
}
use go_mcp_gateway.Common.Dict
use go_mcp_gateway.Common.Dict.{Dict}
use go_mcp_gateway.Common.Int.{ℤ, pos, negsuc, sub_ℕ, ltb_ℤ, ◌+ℤ◌, wrap64}
use go_mcp_gateway.Policy.Clock.{Time, minute}
use go_mcp_gateway.Policy.Bucket
use go_mcp_gateway.Policy.Bucket.{
  TokenBucket, Verdict, allowed, rate_limited, token_budget_exhausted, panics,
}
use go_mcp_gateway.Policy.TierBudget
use go_mcp_gateway.Policy.TierBudget.{TierBudget, Exhausted, tier_budget_exhausted}

pub record PolicyConfig : Type 0 where
  pub rate_limit_per_min : ℤ
  pub token_limit_per_hour : ℤ
  pub session_idle_ttl_min : ℤ
  pub sweep_interval_min : ℤ
  pub budget_deep_seek_daily : ℤ
  pub budget_glm_daily : ℤ

abbrev pub default_policy_config : PolicyConfig
default_policy_config = record {
  rate_limit_per_min = pos 20;
  token_limit_per_hour = pos 200000;
  session_idle_ttl_min = pos 30;
  sweep_interval_min = pos 5;
  budget_deep_seek_daily = pos 1000000;
  budget_glm_daily = pos 500000;
}

-- The mutexes and the channel that ends the sweep loop are left out.
pub record Registry : Type 0 where
  pub cfg : PolicyConfig
  pub sessions : Dict TokenBucket
  pub tiers : Dict TierBudget

-- The three errors of the package.
pub data PolicyError : Type 0 where
  err_rate_limited : String → ℤ → PolicyError
  err_session_token_budget_exhausted : String → ℤ → PolicyError
  err_tier_budget_exhausted : String → PolicyError

unfoldable pub reasoning_tags : PolicyError → List String
reasoning_tags (err_rate_limited _ _) =
    "used_token_bucket" ∷ "added_header_429" ∷ "rate_limited" ∷ []
reasoning_tags (err_session_token_budget_exhausted _ _) =
    "used_token_bucket" ∷ "added_header_429" ∷ "token_budget_exhausted" ∷ []
reasoning_tags (err_tier_budget_exhausted _) =
    "used_token_bucket" ∷ "added_header_429" ∷ "tier_budget_exhausted" ∷ []

-- What a check answers: no error, an error, or the panic of `CheckRate`.
pub data Answer : Type 0 where
  pass : Answer
  refused : PolicyError → Answer
  panic : Answer

unfoldable pub new : PolicyConfig → Registry
unfolding Dict.insert TierBudget.new_tier_budget
new cfg = record {
  cfg = cfg;
  sessions = [];
  tiers = Dict.insert "remote_glm" (TierBudget.new_tier_budget "remote_glm" cfg.budget_glm_daily) (
      Dict.insert "remote_deepseek"
        (TierBudget.new_tier_budget "remote_deepseek" cfg.budget_deep_seek_daily) []);
}

abbrev put_session : Registry → String → TokenBucket → Registry
put_session r session_id b = record r { sessions = Dict.insert session_id b r.sessions }

abbrev put_tier : Registry → String → TierBudget → Registry
put_tier r tier b = record r { tiers = Dict.insert tier b r.tiers }

-- The bucket of a session. A new one is stored by the caller with what it does to it.
unfoldable pub get_or_create_session : Registry → String → Time → TokenBucket
get_or_create_session r session_id created = elim (Dict.lookup session_id r.sessions) [
  | some b ↦ b
  | none ↦ Bucket.new_token_bucket r.cfg.rate_limit_per_min r.cfg.token_limit_per_hour created
]

-- The clock during a check: when the bucket is made, at the start of the check, and in the two
-- places that compute how long to wait.
pub record Readings : Type 0 where
  pub created : Time
  pub now : Time
  pub rate_clock : Time
  pub token_clock : Time

-- The error of a bucket with the session filled in.
abbrev pub answer_for : String → Verdict → Answer
answer_for session_id allowed = pass
answer_for session_id (rate_limited n) = refused (err_rate_limited session_id n)
answer_for session_id (token_budget_exhausted n) =
    refused (err_session_token_budget_exhausted session_id n)
answer_for session_id panics = panic

-- The second check is made only if the first passes.
unfoldable pub after_rate : Readings → TokenBucket × Verdict → TokenBucket × Verdict
after_rate t (b, allowed) = Bucket.check_tokens b t.now t.token_clock
after_rate t (b, rate_limited n) = (b, rate_limited n)
after_rate t (b, token_budget_exhausted n) = (b, token_budget_exhausted n)
after_rate t (b, panics) = (b, panics)

unfoldable pub check_bucket : TokenBucket → Readings → TokenBucket × Verdict
unfolding after_rate
check_bucket b t = after_rate t (Bucket.check_rate b t.now t.rate_clock)

unfoldable pub check_session : Registry → String → Readings → Registry × Answer
unfolding check_bucket get_or_create_session
check_session r session_id t =
    let (b, v) = check_bucket (get_or_create_session r session_id t.created) t in
    (put_session r session_id b, answer_for session_id v)

unfoldable pub deduct_session : Registry → String → Time → Time → ℤ → Registry
unfolding get_or_create_session
deduct_session r session_id created now tokens =
    put_session r session_id (Bucket.deduct (get_or_create_session r session_id created) now tokens)

abbrev tier_answer : Option Exhausted → Answer
tier_answer none = pass
tier_answer (some (tier_budget_exhausted tier)) = refused (err_tier_budget_exhausted tier)

unfoldable pub check_tier : Registry → String → Answer
check_tier r tier = elim (Dict.lookup tier r.tiers) [
  | none ↦ pass
  | some b ↦ tier_answer (TierBudget.check b)
]

-- `held` as in TierBudget.
unfoldable pub deduct_tier : Registry → String → Bool → Time → ℤ → Registry
deduct_tier r tier held now tokens = elim (Dict.lookup tier r.tiers) [
  | none ↦ r
  | some b ↦ put_tier r tier (TierBudget.deduct b held now tokens)
]

unfoldable pub mark_upstream_rate_limit : Registry → String → Registry
mark_upstream_rate_limit r tier = elim (Dict.lookup tier r.tiers) [
  | none ↦ r
  | some b ↦ put_tier r tier (TierBudget.mark_upstream_rate_limit b)
]

-- -1 for a tier with no budget.
unfoldable pub tier_remaining : Registry → String → ℤ
tier_remaining r tier = elim (Dict.lookup tier r.tiers) [
  | none ↦ negsuc 0
  | some b ↦ TierBudget.remaining_of b
]

unfoldable pub session_count : Registry → ℕ
session_count r = length r.sessions

-- time.Duration(min) * time.Minute
abbrev pub minutes : ℤ → ℤ
minutes (pos n) = wrap64 (pos (n * minute))
minutes (negsuc n) = wrap64 (sub_ℕ 0 (suc n * minute))

-- `b.IdleSince().Before(now.Add(-ttl))`
unfoldable pub is_idle : PolicyConfig → Time → TokenBucket → Bool
is_idle cfg now b = ltb_ℤ (pos (Bucket.idle_since b) +ℤ minutes cfg.session_idle_ttl_min) (pos now)

unfoldable pub sweep : Registry → Time → Bool → Registry
sweep r now held = record r {
  sessions = Dict.retain (λ b. not (is_idle r.cfg now b)) r.sessions;
  tiers = Dict.map_values (λ b. TierBudget.prune b held now) r.tiers;
}
