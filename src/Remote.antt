-- ===== src/Remote.antt =====
-- internal/remote: the requests and answers (types.go), the exchange with a provider (client.go),
-- and the children for the retries and the fallback. The texts of errors are left out.
pub mod Retry
pub mod Fallback
pub mod Opus
pub mod Stream
pub mod Resolver
use go_mcp_gateway.Common.{
  ℕ, ◌+◌, ◌==◌, Bool, true, false, if◌then◌else◌, Option, none, some, List, [], ◌∷◌, ◌++◌, String,
  name_eq,
}

pub record RemoteRequest : Type 0 where
  pub task : String
  pub max_tokens : ℕ
  pub stream : Bool
  pub tier : String
  pub complexity : String
  pub system_prompt : String

pub record RemoteResult : Type 0 where
  pub content : String
  pub prompt_tokens : ℕ
  pub completion_tokens : ℕ
  pub model : String
  pub provider : String

unfoldable pub total_tokens : RemoteResult → ℕ
total_tokens r = r.prompt_tokens + r.completion_tokens

-- `RateLimitedError`, with the provider, the seconds to wait and the attempts made; `TerminalError`,
-- with the provider and the status; and the error of a context that has ended.
pub data RemoteError : Type 0 where
  rate_limited : String → ℕ → ℕ → RemoteError
  terminal : String → ℕ → RemoteError
  context_ended : RemoteError

pub data Answer {ℓ} (A : Type ℓ) : Type ℓ where
  returned : A → Answer A
  raised : RemoteError → Answer A

pub record OpenaiMessage : Type 0 where
  pub role : String
  pub content : String

unfoldable pub build_messages : RemoteRequest → List OpenaiMessage
build_messages req =
    let user : List OpenaiMessage = record { role = "user"; content = req.task } ∷ [] in
    if name_eq req.system_prompt ""
    then user
    else record { role = "system"; content = req.system_prompt } ∷ user

-- The body of an answer: the contents of its choices, the tokens and the model.
pub record OpenaiResponse : Type 0 where
  pub choices : List String
  pub prompt_tokens : ℕ
  pub completion_tokens : ℕ
  pub model : String

-- What comes of a request: it cannot be encoded, built or sent, or a status comes back, with a body
-- that decodes or does not.
pub data Exchange : Type 0 where
  not_encoded not_built not_sent : Exchange
  answered : ℕ → Option OpenaiResponse → Exchange

-- What `do` returns: a status that is a 429, or the rest.
pub data Reply : Type 0 where
  too_many_requests : Reply
  replied : Answer RemoteResult → Reply

unfoldable pub first_choice : String → ℕ → OpenaiResponse → Answer RemoteResult
first_choice name status body = elim (body.choices) [
  | [] ↦ raised (terminal name 0)
  | content ∷ _ ↦ returned (record {
    content = content;
    prompt_tokens = body.prompt_tokens;
    completion_tokens = body.completion_tokens;
    model = body.model;
    provider = name;
  })
]

-- `doSync`, from what comes of the request.
unfoldable pub do_sync : String → Exchange → Reply
unfolding first_choice
do_sync name not_encoded = replied (raised (terminal name 0))
do_sync name not_built = replied (raised (terminal name 0))
do_sync name not_sent = replied (raised (terminal name 0))
do_sync name (answered status body) =
    if status == 429
    then too_many_requests
    else if status == 200
    then elim body [
      | none ↦ replied (raised (terminal name 0))
      | some response ↦ replied (first_choice name status response)
    ]
    else replied (raised (terminal name status))
