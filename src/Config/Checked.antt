-- ===== src/Config/Checked.antt =====
-- What internal/config accepts, and what becomes of it in internal/policy.
use go_mcp_gateway.Common.{
  ◌≢◌, ◌≡◌, refl, ap, ◌⊎◌, ◌↔◌, arith, Bool, true, false, Option, none, some, String, [], ◌∷◌, All,
}
use go_mcp_gateway.Common.Dict
use go_mcp_gateway.Common.Dict.{Dict}
use go_mcp_gateway.Common.Int.{ℤ, pos, ◌≤ℤ◌}
use go_mcp_gateway.Common.Text.{Str, is_empty}
use go_mcp_gateway.Policy.Bucket.{
  TokenBucket, new_token_bucket, check_tokens, check_rate, panics, allowed, rate_limited,
  token_budget_exhausted, Verdict,
}
use go_mcp_gateway.Policy.Bucket.Window.{check_rate_lem, recent_nothing}
use go_mcp_gateway.Policy.Clock.{Time}
use go_mcp_gateway.Policy.Registry
use go_mcp_gateway.Policy.Registry.{
  Registry, Readings, Answer, panic, check_session, check_bucket, after_rate, answer_for,
  get_or_create_session,
}
use go_mcp_gateway.Config.{
  GatewayConfig, ModelConfig, RemoteApiConfig, ConfigError, validate, validate_models,
  validate_keys, or_else, policy_config,
}

-- A model file that is named and there.
abbrev pub IsPresent : (Str → Bool) → String × ModelConfig → Type 0
IsPresent exists (tier, m) = (is_empty m.path ≡ false) × (exists m.path ≡ true)

-- The conditions of a configuration that is safe to run with.
abbrev pub IsUsable : (Str → Bool) → GatewayConfig → Type 0
IsUsable exists cfg =
    (is_empty cfg.llama_server.exec_path ≡ false)
    × (exists cfg.llama_server.exec_path ≡ true)
    × All (IsPresent exists) cfg.models
    × ((is_empty cfg.remote_apis.deep_seek_base_url ≡ true)
        ⊎ (is_empty cfg.remote_apis.deep_seek_api_key ≡ false))
    × ((is_empty cfg.remote_apis.glm_base_url ≡ true)
        ⊎ (is_empty cfg.remote_apis.glm_api_key ≡ false))

validate_models-IsPresent :
    (exists : Str → Bool) (models : Dict ModelConfig)
    → (validate_models exists models ≡ none) ↔ All (IsPresent exists) models
unfolding validate_models
validate_models-IsPresent exists [] = (λ _. tt, λ _. refl)
validate_models-IsPresent exists ((tier, m) ∷ models) =
    let rest = validate_models-IsPresent exists models in ground (arith, rest)

validate_keys_lem :
    (r : RemoteApiConfig)
    → (validate_keys r ≡ none)
      ↔ ((is_empty r.deep_seek_base_url ≡ true) ⊎ (is_empty r.deep_seek_api_key ≡ false))
        × ((is_empty r.glm_base_url ≡ true) ⊎ (is_empty r.glm_api_key ≡ false))
validate_keys_lem r = ground arith

or_else-none : (a b : Option ConfigError) → (or_else a b ≡ none) ↔ ((a ≡ none) × (b ≡ none))
or_else-none none b = (λ h. (refl, h), λ h. h.1)
or_else-none (some e) b = (λ h. absurd (cc h), λ h. absurd (cc (h.0)))

-- A configuration is accepted exactly if the llama-server program is named and there, each model has
-- a file that is there, and each remote provider whose URL is set has a key.
pub validate_lem :
    (exists : Str → Bool) (cfg : GatewayConfig) → (validate exists cfg ≡ none) ↔ IsUsable exists cfg
unfolding validate
validate_lem exists cfg =
    let models = validate_models-IsPresent exists cfg.models in
    let keys = validate_keys_lem cfg.remote_apis in
    let parts = or_else-none (validate_models exists cfg.models) (validate_keys cfg.remote_apis) in
    ground (arith, models, keys, parts)

after_rate-panics :
    (t : Readings) (b : TokenBucket) (v : Verdict) → v ≡ panics → (after_rate t (b, v)).1 ≡ panics
unfolding after_rate
after_rate-panics t b allowed h = absurd (cc h)
after_rate-panics t b (rate_limited n) h = h
after_rate-panics t b (token_budget_exhausted n) h = h
after_rate-panics t b panics h = h

check_bucket-panics :
    (t : Readings) (b : TokenBucket)
    → (check_rate b t.now t.rate_clock).1 ≡ panics
    → (check_bucket b t).1 ≡ panics
unfolding check_bucket
check_bucket-panics t b h =
    let (c, v) = check_rate b t.now t.rate_clock in after_rate-panics t c v h

-- The rate limit of a configuration replaced.
abbrev pub with_rate : ℤ → GatewayConfig → GatewayConfig
with_rate n cfg = record cfg { policy = record cfg.policy { session_rate_per_min = n } }

check_tokens-ne-panics :
    (b : TokenBucket) (now clock : Time) → (check_tokens b now clock).1 ≢ panics
unfolding check_tokens
check_tokens-ne-panics b now clock h = ground arith

after_rate-only :
    (t : Readings) (b : TokenBucket) (v : Verdict) → (after_rate t (b, v)).1 ≡ panics → v ≡ panics
unfolding after_rate
after_rate-only t b allowed h = absurd (check_tokens-ne-panics b t.now t.token_clock h)
after_rate-only t b (rate_limited n) h = h
after_rate-only t b (token_budget_exhausted n) h = h
after_rate-only t b panics h = h

check_bucket-only :
    (t : Readings) (b : TokenBucket)
    → (check_bucket b t).1 ≡ panics
    → (check_rate b t.now t.rate_clock).1 ≡ panics
unfolding check_bucket
check_bucket-only t b h = let (c, v) = check_rate b t.now t.rate_clock in after_rate-only t c v h

answer_for-panic :
    (session_id : String) (v : Verdict) → answer_for session_id v ≡ panic → v ≡ panics
answer_for-panic session_id allowed h = absurd (cc h)
answer_for-panic session_id (rate_limited n) h = absurd (cc h)
answer_for-panic session_id (token_budget_exhausted n) h = absurd (cc h)
answer_for-panic session_id panics h = refl

-- `Validate` decides the same whatever the rate limit is, so that a limit that is not positive is
-- accepted; and the first request of a session to the registry built from the configuration panics
-- exactly if the limit is not positive.
pub zero_rate_accepted :
    (exists : Str → Bool) (cfg : GatewayConfig) (n : ℤ) (session_id : String) (t : Readings)
    → (validate exists (with_rate n cfg) ≡ validate exists cfg)
      × (((check_session (Registry.new (policy_config (with_rate n cfg))) session_id t).1 ≡ panic)
          ↔ (n ≤ℤ pos 0))
unfolding validate policy_config Registry.new check_session get_or_create_session new_token_bucket
    Dict.lookup
zero_rate_accepted exists cfg n session_id t =
    let fresh = new_token_bucket n cfg.policy.session_tokens_per_hour t.created in
    let rate = (check_rate_lem fresh t.now t.rate_clock).1 in
    (
      refl,
      (
        λ h.
            (rate.0 (
              check_bucket-only t fresh
                (answer_for-panic session_id (check_bucket fresh t).1 h))).1,
        λ low.
            ap (answer_for session_id)
              (check_bucket-panics t fresh (rate.1 (recent_nothing t.now, low))),
      ),
    )
