-- ===== src/Tests/Policy.antt =====
-- internal/policy on concrete inputs.
use go_mcp_gateway.Common.{
  ◌+◌, ◌*◌, ◌^◌, ◌<◌, ◌≡◌, ◌↔◌, refl, arith, none, some, if◌then◌else◌, true, false, List, [], ◌∷◌,
}
use go_mcp_gateway.Common.Dict
use go_mcp_gateway.Common.Int.{◌+ℤ◌, wrap64, pos, sub_ℕ, ◌<ℤ◌, ◌≤ℤ◌, pos_part}
use go_mcp_gateway.Policy.Clock.{Time, hour, within}
use go_mcp_gateway.Policy.Bucket
use go_mcp_gateway.Policy.Bucket.{
  TokenBucket, allowed, panics, new_token_bucket, check_rate, check_tokens,
}
use go_mcp_gateway.Policy.Bucket.Window.{
  recent, Calls, replay, WithinRate, check_rate-WithinRate, check_rate_lem,
}
use go_mcp_gateway.Policy.Bucket.Tokens.{Counts, spent, check_tokens_lem}
use go_mcp_gateway.Policy.TierBudget.{
  TierBudget, new_tier_budget, check, prune, mark_upstream_rate_limit,
}
use go_mcp_gateway.Policy.TierBudget
use go_mcp_gateway.Policy.TierBudget.Conservation.{
  Event, charged, pruned, charges, run, owed, charged_in_day, latest, InOrder, run-Balanced,
  deduct_contended,
}
use go_mcp_gateway.Policy.Registry.{
  default_policy_config, Registry, pass, get_or_create_session, Readings, check_session, is_idle,
  sweep,
}
use go_mcp_gateway.Policy.Registry.Sessions.{check_session_lem}
use go_mcp_gateway.Policy.Registry.Sweep.{sweep_forgets}

-- Three requests, two at once and one after a minute, newest first.
abbrev calls : Calls
calls = (70 * 1000000000, 70 * 1000000000) ∷ (5, 6) ∷ (5, 5) ∷ []

check_rate-WithinRate_example :
    WithinRate (pos 1) (replay (new_token_bucket (pos 1) (pos 9) 0) calls).1
check_rate-WithinRate_example =
    check_rate-WithinRate (pos 1) (pos 9) 0 calls (omega arith, (omega arith, (omega arith, tt)))

abbrev spent_bucket : TokenBucket
spent_bucket = record {
  rate_limit_per_min = pos 0;
  request_times = [];
  token_limit_per_hour = pos 100;
  token_deductions = record { at = 10; tokens = pos 150 } ∷ [];
  last_seen = 10;
}

check_rate_lem_example :
    (((check_rate spent_bucket 20 20).1 ≡ allowed)
      ↔ (pos (recent 20 spent_bucket.request_times) <ℤ pos 0))
    × (((check_rate spent_bucket 20 20).1 ≡ panics)
        ↔ ((recent 20 spent_bucket.request_times ≡ 0) × (pos 0 ≤ℤ pos 0)))
check_rate_lem_example = check_rate_lem spent_bucket 20 20

spent_little : spent 20 spent_bucket.token_deductions < 2 ^ 63
unfolding spent
spent_little = omega arith

check_tokens_lem_example :
    (((check_tokens spent_bucket 20 20).1 ≡ allowed)
      ↔ (pos (spent 20 spent_bucket.token_deductions) <ℤ pos 100))
    × (spent 40 (Bucket.deduct (check_tokens spent_bucket 20 20).0 30 (pos 7)).token_deductions
        ≡ spent 40 spent_bucket.token_deductions
          + (if within hour 40 30 then pos_part (pos 7) else 0))
check_tokens_lem_example =
    check_tokens_lem spent_bucket 20 20 40 30 (pos 7) (omega arith, tt) spent_little (omega arith)

abbrev events : List Event
events = pruned false 40 ∷ charged false 30 70 ∷ charged false 20 50 ∷ []

few_charges : charges events < 2 ^ 63
unfolding charges
few_charges = omega arith

events_owe : owed events ≡ 120
unfolding owed charged_in_day
events_owe = refl

events-InOrder : InOrder events
unfolding latest
events-InOrder = (omega arith, (omega arith, (omega arith, tt)))

run-Balanced_example :
    let b = run (new_tier_budget "remote_glm" (pos 100)) events in
    (b.remaining ≡ sub_ℕ 100 (owed events)) × ((check b ≡ none) ↔ (owed events < 100))
run-Balanced_example =
    run-Balanced "remote_glm" 100 events (omega arith) few_charges events-InOrder
      (refl, (refl, (refl, tt)))

abbrev budget : TierBudget
budget = record { tier = "remote_glm"; daily_limit = pos 100; remaining = pos 100; deductions = [] }

deduct_contended_example :
    prune (TierBudget.deduct budget true 20 (pos 90)) false 30 ≡ prune budget false 30
deduct_contended_example = deduct_contended budget 20 30 (pos 90)

abbrev registry : Registry
registry = record {
  cfg = default_policy_config;
  sessions = ("s", spent_bucket) ∷ [];
  tiers = ("remote_glm", budget) ∷ [];
}

abbrev readings : Readings
readings = record { created = 20; now = 20; rate_clock = 20; token_clock = 20 }

session-Counts : Counts (get_or_create_session registry "s" 20).token_deductions
unfolding get_or_create_session Dict.lookup
session-Counts = (omega arith, tt)

session_spent : spent 20 (get_or_create_session registry "s" 20).token_deductions < 2 ^ 63
unfolding get_or_create_session Dict.lookup spent
session_spent = omega arith

check_session_lem_example : ((check_session registry "s" readings).1 ≡ pass) ↔ (
    (pos (recent 20 (get_or_create_session registry "s" 20).request_times)
      <ℤ (get_or_create_session registry "s" 20).rate_limit_per_min)
    × (pos (spent 20 (get_or_create_session registry "s" 20).token_deductions)
        <ℤ (get_or_create_session registry "s" 20).token_limit_per_hour))
check_session_lem_example = check_session_lem registry "s" readings session-Counts session_spent

registry-IsDistinct : Dict.IsDistinct registry.sessions
unfolding Dict.lookup
registry-IsDistinct = (refl, tt)

-- Forty minutes later, within the hour.
abbrev idle : Time
idle = 40 * 60 * 1000000000

session_known : Dict.lookup "s" registry.sessions ≡ some spent_bucket
unfolding Dict.lookup
session_known = refl

session_idle : is_idle default_policy_config idle spent_bucket ≡ true
unfolding is_idle Bucket.idle_since ◌+ℤ◌ wrap64
session_idle = refl

sweep_forgets_example :
    get_or_create_session (sweep registry idle false) "s" idle
    ≡ new_token_bucket (pos 20) (pos 200000) idle
sweep_forgets_example =
    sweep_forgets registry idle idle false "s" spent_bucket registry-IsDistinct session_known
      session_idle
