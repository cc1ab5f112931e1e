-- ===== src/Remote/Retry.antt =====
-- internal/remote/retry.go. Each call is an exchange by its number, and so is whether the context
-- ends while the loop waits. Times are nanoseconds.
pub mod Attempts
use go_mcp_gateway.Common.{
  ℕ, zero, suc, ◌+◌, ◌-◌, ◌*◌, ◌/◌, ◌^◌, ltb, ◌==◌, Bool, true, false, if◌then◌else◌, String, List,
  [], ◌∷◌, ◌++◌,
}
use go_mcp_gateway.Remote.{
  RemoteResult, RemoteError, rate_limited, terminal, context_ended, Answer, returned, raised,
  Exchange, Reply, too_many_requests, replied, do_sync,
}

unfoldable pub max_retries : ℕ
max_retries = 3

unfoldable pub second : ℕ
second = 1000000000

unfoldable pub initial_backoff : ℕ
unfolding second
initial_backoff = 2 * second

unfoldable pub max_backoff : ℕ
unfolding second
max_backoff = 30 * second

-- Doubled for each attempt; the product is exact in a float64 up to the cap.
unfoldable pub exponential_backoff : ℕ → ℕ
unfolding initial_backoff max_backoff
exponential_backoff attempt =
    let d = initial_backoff * 2 ^ attempt in if ltb max_backoff d then max_backoff else d

-- The answer, the number of calls made, and the waits between them.
pub record Retried : Type 0 where
  pub answer : Answer RemoteResult
  pub calls : ℕ
  pub waits : List ℕ

-- The loop, with the attempts left after this one; `wait` is how long it waits after an attempt.
unfoldable pub retry : String → (ℕ → ℕ) → (ℕ → Reply) → (ℕ → Bool) → ℕ → ℕ → ℕ → List ℕ → Retried
unfolding second
retry name wait call ends zero attempt last waits = elim (call attempt) [
  | replied a ↦ record { answer = a; calls = suc attempt; waits = waits }
  | too_many_requests ↦ record {
    answer = raised (rate_limited name last (attempt + 1));
    calls = suc attempt;
    waits = waits;
  }
]
retry name wait call ends (suc left) attempt last waits =
    let next =
      retry name wait call ends left (suc attempt) (wait attempt / second)
        (waits ++ wait attempt ∷ []) in
    elim (call attempt) [
      | replied a ↦ record { answer = a; calls = suc attempt; waits = waits }
      | too_many_requests ↦
          (if ends attempt
            then record { answer = raised context_ended; calls = suc attempt; waits = waits }
            else next)
    ]

-- `doWithRetry`.
unfoldable pub do_with_retry : String → (ℕ → Exchange) → (ℕ → Bool) → Retried
unfolding retry max_retries exponential_backoff do_sync
do_with_retry name exchange ends =
    retry name exponential_backoff (λ n. do_sync name (exchange n)) ends max_retries 0 0 []

-- What a Retry-After header can be: absent, neither of the forms, a number of seconds that is not
-- negative, or a date, by its distance from now, which is 0 for a date in the past.
pub data Header : Type 0 where
  blank unparseable : Header
  delta_seconds : ℕ → Header
  http_date : ℕ → Header

unfoldable pub parse_retry_after : Header → ℕ
unfolding second
parse_retry_after blank = 0
parse_retry_after unparseable = 0
parse_retry_after (delta_seconds n) = n * second
parse_retry_after (http_date d) = d

unfoldable pub header_wait : (ℕ → Header) → ℕ → ℕ
unfolding parse_retry_after exponential_backoff
header_wait header attempt =
    let wait = parse_retry_after (header attempt) in
    if wait == 0 then exponential_backoff attempt else wait

-- `doWithRetryAndHeader`.
unfoldable pub do_with_retry_and_header :
    String → (ℕ → Header) → (ℕ → Exchange) → (ℕ → Bool) → Retried
unfolding retry max_retries header_wait do_sync
do_with_retry_and_header name header exchange ends =
    retry name (header_wait header) (λ n. do_sync name (exchange n)) ends max_retries 0 0 []
