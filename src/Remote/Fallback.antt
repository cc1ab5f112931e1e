-- ===== src/Remote/Fallback.antt =====
-- internal/remote/openrouter_fallback.go. An adapter that is not the fallback's is what it answers.
pub mod Fires
use go_mcp_gateway.Common.{ℕ, Bool, false, Option, none, some, if◌then◌else◌, String, List, [], ◌∷◌}
use go_mcp_gateway.Common.Dict.{Dict, lookup}
use go_mcp_gateway.Remote.{
  RemoteRequest, RemoteResult, RemoteError, rate_limited, terminal, context_ended, Answer, returned,
  raised, Exchange,
}
use go_mcp_gateway.Remote.Retry.{Retried, blank, do_with_retry_and_header}

abbrev pub open_router_name : String
open_router_name = "openrouter_fallback"

unfoldable pub tier_to_open_router_model : Dict String
tier_to_open_router_model =
    ("remote_deepseek", "deepseek/deepseek-v4-flash")
    ∷ ("remote_glm", "z-ai/glm-5.3")
    ∷ ("remote_opus", "anthropic/claude-opus-5")
    ∷ []

-- The fallback's `Do`, on its own exchanges, which depend on the model it asks. Its context never
-- ends, and it has no header to read.
unfoldable pub fallback_do : RemoteRequest → (String → ℕ → Exchange) → Retried
unfolding tier_to_open_router_model lookup do_with_retry_and_header
fallback_do req exchange = elim (lookup req.tier tier_to_open_router_model) [
  | none ↦ record { answer = raised (terminal open_router_name 0); calls = 0; waits = [] }
  | some model ↦
      do_with_retry_and_header open_router_name (λ n. blank) (exchange model) (λ n. false)
]

-- The answer, and what the fallback did if it was asked.
pub record Served : Type 0 where
  pub answer : Answer RemoteResult
  pub fallback : Option Retried

-- `fallbackAdapter.Do`, from the answer of the primary.
unfoldable pub with_fallback :
    Answer RemoteResult → RemoteRequest → (String → ℕ → Exchange) → Served
unfolding fallback_do
with_fallback (returned r) req exchange = record { answer = returned r; fallback = none }
with_fallback (raised (terminal name status)) req exchange =
    let second_try = fallback_do req exchange in
    record { answer = second_try.answer; fallback = some second_try }
with_fallback (raised (rate_limited name secs attempts)) req exchange = record {
  answer = raised (rate_limited name secs attempts);
  fallback = none;
}
with_fallback (raised context_ended) req exchange = record {
  answer = raised context_ended;
  fallback = none;
}
