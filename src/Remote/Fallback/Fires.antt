-- ===== src/Remote/Fallback/Fires.antt =====
-- When the fallback of internal/remote/openrouter_fallback.go is asked, behind the retry loop.
use go_mcp_gateway.Common.{
  ◌<◌, [], ℕ, ◌≡◌, refl, ap, ◌∙◌, ◌⊎◌, inl, inr, ◌≤◌, arith, Bool, none, some, String,
}
use go_mcp_gateway.Remote.{
  RemoteRequest, RemoteResult, rate_limited, terminal, context_ended, Answer, returned, raised,
  Exchange, Reply, too_many_requests, replied, do_sync,
}
use go_mcp_gateway.Remote.Retry.{
  Header, header_wait, max_retries, Retried, do_with_retry_and_header,
}
use go_mcp_gateway.Remote.Retry.Attempts.{Settled, retry-Settled}
use go_mcp_gateway.Remote.Fallback.{with_fallback, fallback_do}

-- Served by the primary, or an error of it that is no terminal error; or a terminal error.
IsTerminal : Answer RemoteResult → Type 0
IsTerminal a = (name : String) × (status : ℕ) × (a ≡ raised (terminal name status))

with_fallback-asked :
    (a : Answer RemoteResult) (req : RemoteRequest) (exchange : String → ℕ → Exchange)
    → ((with_fallback a req exchange).fallback ≡ none) × ((with_fallback a req exchange).answer ≡ a)
      ⊎ IsTerminal a × ((with_fallback a req exchange).fallback ≡ some (fallback_do req exchange))
unfolding with_fallback IsTerminal
with_fallback-asked (returned r) req exchange = inl (refl, refl)
with_fallback-asked (raised (rate_limited name s n)) req exchange = inl (refl, refl)
with_fallback-asked (raised context_ended) req exchange = inl (refl, refl)
with_fallback-asked (raised (terminal name status)) req exchange = inr ((name, status, refl), refl)

unfoldable pub Fires : (ℕ → Reply) → Retried → RemoteRequest → (String → ℕ → Exchange) → Type 0
Fires call first req exchange =
    let served = with_fallback first.answer req exchange in
    (served.fallback ≡ none) × (served.answer ≡ first.answer)
    ⊎ (served.fallback ≡ some (fallback_do req exchange))
      × ((last : ℕ) × (status : ℕ) × (by : String) × (call last
            ≡ replied (raised (terminal by status)))
          × ((m : ℕ) → m < last → call m ≡ too_many_requests))

Settled-Fires :
    (name : String) (call : ℕ → Reply) (ends : ℕ → Bool) (left : ℕ) (first : Retried)
    (req : RemoteRequest) (exchange : String → ℕ → Exchange)
    → Settled name call ends 0 left first
    → Fires call first req exchange
unfolding Fires IsTerminal
Settled-Fires name call ends left first req exchange k =
    elim (with_fallback-asked first.answer req exchange) [
      | inl h ↦ inl h
      | inr ((by, status, e), asked) ↦ elim (k.final) [
        | inl h ↦
            inr (asked, (k.last, status, by, h ∙ ap replied e, λ m j. k.limited m (omega arith) j))
        | inr (inl (h, a, c)) ↦ absurd (cc (e, a))
        | inr (inr (h, (s, a), c)) ↦ absurd (cc (e, a))
      ]
    ]

-- Behind the retry loop, the fallback is asked only if the provider answered with a terminal error
-- and with a 429 to every call before; whatever else the loop ends with, a 429 to all four calls
-- included, is passed on. The loop makes four calls at most.
pub with_fallback_lem :
    (name : String) (header : ℕ → Header) (exchange : ℕ → Exchange) (ends : ℕ → Bool)
    (req : RemoteRequest) (second_exchange : String → ℕ → Exchange)
    → Fires
        (λ n. do_sync name (exchange n))
        (do_with_retry_and_header name header exchange ends)
        req
        second_exchange
      × ((do_with_retry_and_header name header exchange ends).calls ≤ 4)
unfolding do_with_retry_and_header max_retries
with_fallback_lem name header exchange ends req second_exchange =
    let k =
      retry-Settled name (header_wait header) (λ n. do_sync name (exchange n)) ends 3 0 0 [] in
    (Settled-Fires name _ ends 3 _ req second_exchange k, omega (arith, k.calls, k.bounded))
