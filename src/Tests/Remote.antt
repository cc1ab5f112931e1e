-- ===== src/Tests/Remote.antt =====
-- internal/remote and internal/modelmanager on concrete inputs.
use go_mcp_gateway.Common.{
  ℕ, ◌+◌, ◌≤◌, ◌≡◌, refl, none, some, Option, List, [], ◌∷◌, ◌++◌, if◌then◌else◌, ◌==◌, false,
  length, Option, ◌≢◌, String, ◌↔◌, name_eq,
}
use go_mcp_gateway.Common.Text.{codes, Str}
use go_mcp_gateway.Remote.{RemoteRequest, Exchange, not_sent, answered, do_sync}
use go_mcp_gateway.Remote.Retry.{blank, do_with_retry, do_with_retry_and_header}
use go_mcp_gateway.Remote.Retry.Attempts.{Settled, do_with_retry-Settled}
use go_mcp_gateway.Remote.Fallback.Fires.{Fires, with_fallback_lem}
use go_mcp_gateway.Remote.Stream.{OpenaiStreamChunk}
use go_mcp_gateway.Remote.Resolver.{Adapter, new_resolver, resolve}
use go_mcp_gateway.Remote.Resolver.Configured.{IsConfigured, new_resolver_lem}
use go_mcp_gateway.Common.Dict.{Dict}
use go_mcp_gateway.Remote.Opus.{opus_do, hints, opus_do-hints}

-- A 429 first, then an answer that is no success.
abbrev exchange : ℕ → Exchange
exchange n = if n == 0 then answered 429 none else answered 500 none

do_with_retry-Settled_example :
    Settled "glm"
      (λ n. do_sync "glm" (exchange n))
      (λ n. false)
      0
      3
      (do_with_retry "glm" exchange (λ n. false))
do_with_retry-Settled_example = do_with_retry-Settled "glm" exchange (λ n. false)

abbrev request : RemoteRequest
request = record {
  task = "write a test";
  max_tokens = 0;
  stream = false;
  tier = "remote_glm";
  complexity = "scaffold";
  system_prompt = "";
}

with_fallback_lem_example :
    Fires
      (λ n. do_sync "glm" (exchange n))
      (do_with_retry_and_header "glm" (λ n. blank) exchange (λ n. false))
      request
      (λ model n. not_sent)
    × ((do_with_retry_and_header "glm" (λ n. blank) exchange (λ n. false)).calls ≤ 4)
with_fallback_lem_example =
    with_fallback_lem "glm" (λ n. blank) exchange (λ n. false) request (λ model n. not_sent)

-- The provider refuses one length of the prompt.
abbrev prompted : Str → ℕ → Exchange
prompted prompt n = if length prompt == 32 then answered 429 none else exchange n

opus_do-hints_example :
    opus_do (codes "be brief") prompted (λ n. false)
    ≡ do_with_retry_and_header "claude_opus"
        (λ n. blank)
        (λ n. prompted (codes "be brief" ++ hints (n + 1)) n)
        (λ n. false)
opus_do-hints_example = opus_do-hints (codes "be brief") prompted (λ n. false) refl

-- A provider that sends its text as it is.
abbrev hello : OpenaiStreamChunk
hello = record {
  model = "glm";
  choices = "he" ∷ [];
  usage = some (record { prompt_tokens = 1; completion_tokens = 2 });
}

abbrev world : OpenaiStreamChunk
world = record { model = "other"; choices = "llo" ∷ []; usage = none }

abbrev decode_chunk : Str → Option OpenaiStreamChunk
decode_chunk [] = none
decode_chunk (c ∷ _) = if c == b'h' then some hello else if c == b'l' then some world else none

abbrev sent : List Str
sent = codes "h" ∷ codes "x" ∷ codes "l" ∷ []

abbrev env : String → String
env variable = if name_eq variable "GLM_API_KEY" then "k" else ""

new_resolver_lem_example :
    (r : Dict Adapter) × (new_resolver env ≡ some r)
    × ((resolve r "remote_glm" ≢ none) ↔ IsConfigured env "remote_glm")
new_resolver_lem_example = new_resolver_lem env "remote_glm"
