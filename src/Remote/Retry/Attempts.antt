-- ===== src/Remote/Retry/Attempts.antt =====
-- How the retry loop of internal/remote/retry.go ends.
use go_mcp_gateway.Common.{
  ==_iff, ◌==◌, ℕ, zero, suc, ◌+◌, ◌/◌, ◌≤◌, ◌<◌, ◌≡◌, refl, sym, ap, ◌∙◌, arith, Bool, true,
  Bool-cases, inl, inr, ◌⊎◌, String, List, [], ◌∷◌, ◌++◌, subst,
}
use go_mcp_gateway.Remote.{
  RemoteResult, rate_limited, context_ended, Answer, raised, Exchange, Reply, too_many_requests,
  replied, do_sync,
}
use go_mcp_gateway.Remote.Retry.{
  second, max_retries, exponential_backoff, Retried, retry, do_with_retry,
}

-- The loop ends on the call `last`, which every call before answers with a 429: on an answer that
-- is no 429, on a context that ends, or because no attempt is left.
pub record Settled (name : String) (call : ℕ → Reply) (ends : ℕ → Bool) (first left : ℕ)
    (r : Retried) : Type 0 where
  pub last : ℕ
  pub calls : r.calls ≡ suc last
  pub bounded : last ≤ first + left
  pub limited : (m : ℕ) → first ≤ m → m < last → call m ≡ too_many_requests
  pub final :
      (call last ≡ replied r.answer)
      ⊎ (call last ≡ too_many_requests) × (r.answer ≡ raised context_ended) × (ends last ≡ true)
      ⊎ (call last ≡ too_many_requests)
        × ((s : ℕ) × (r.answer ≡ raised (rate_limited name s (last + 1))))
        × (last ≡ first + left)

Reply-cases : (r : Reply) → (r ≡ too_many_requests) ⊎ ((a : Answer RemoteResult) × (r ≡ replied a))
Reply-cases too_many_requests = inl refl
Reply-cases (replied a) = inr (a, refl)

module _ (name : String) (wait : ℕ → ℕ) (call : ℕ → Reply) (ends : ℕ → Bool) where
  on_reply :
      (n left : ℕ) (ws : List ℕ) (a : Answer RemoteResult)
      → call n ≡ replied a
      → Settled name call ends n left (record { answer = a; calls = suc n; waits = ws })
  on_reply n left ws a e = record {
    last = n;
    calls = refl;
    bounded = omega arith;
    limited = λ m h k. absurd (omega arith);
    final = inl e;
  }

  on_end :
      (n left : ℕ) (ws : List ℕ)
      → call n ≡ too_many_requests
      → ends n ≡ true
      → Settled name call ends n left
          (record { answer = raised context_ended; calls = suc n; waits = ws })
  on_end n left ws e h = record {
    last = n;
    calls = refl;
    bounded = omega arith;
    limited = λ m h k. absurd (omega arith);
    final = inr (inl (e, refl, h));
  }

  on_last :
      (n s : ℕ) (ws : List ℕ)
      → call n ≡ too_many_requests
      → Settled name call ends n 0
          (record { answer = raised (rate_limited name s (n + 1)); calls = suc n; waits = ws })
  on_last n s ws e = record {
    last = n;
    calls = refl;
    bounded = omega arith;
    limited = λ m h k. absurd (omega arith);
    final = inr (inr (e, (s, refl), omega arith));
  }

  on_next :
      (n left : ℕ) (r : Retried)
      → call n ≡ too_many_requests
      → Settled name call ends (suc n) left r
      → Settled name call ends n (suc left) r
  on_next n left r e k = record {
    last = k.last;
    calls = k.calls;
    bounded = omega (arith, k.bounded);
    limited = λ m h j. elim (Bool-cases (m == n)) [
      | inl b ↦ ap call ((==_iff m n).0 b) ∙ e
      | inr b ↦ k.limited m (ground (arith, h, b)) j
    ];
    final = elim (k.final) [
      | inl h ↦ inl h
      | inr (inl h) ↦ inr (inl h)
      | inr (inr (h, a, l)) ↦ inr (inr (h, a, omega (arith, l)))
    ];
  }

  pub retry-Settled :
      (left n s : ℕ) (ws : List ℕ)
      → Settled name call ends n left (retry name wait call ends left n s ws)
  unfolding retry
  retry-Settled zero n s ws = elim (Reply-cases (call n)) [
    | inr (a, e) ↦
        let same : retry name wait call ends zero n s ws
            ≡ record { answer = a; calls = suc n; waits = ws } =
          rw (e, retry) refl in
        subst (Settled name call ends n 0) (sym same) (on_reply n 0 ws a e)
    | inl e ↦
        let same : retry name wait call ends zero n s ws
            ≡ record { answer = raised (rate_limited name s (n + 1)); calls = suc n; waits = ws } =
          rw (e, retry) refl in
        subst (Settled name call ends n 0) (sym same) (on_last n s ws e)
  ]
  retry-Settled (suc left) n s ws =
      let next = retry name wait call ends left (suc n) (wait n / second) (ws ++ wait n ∷ []) in
      elim (Reply-cases (call n)) [
        | inr (a, e) ↦
            let same : retry name wait call ends (suc left) n s ws
                ≡ record { answer = a; calls = suc n; waits = ws } =
              rw (e, retry) refl in
            subst (Settled name call ends n (suc left)) (sym same) (on_reply n (suc left) ws a e)
        | inl e ↦ elim (Bool-cases (ends n)) [
          | inl h ↦
              let same : retry name wait call ends (suc left) n s ws
                  ≡ record { answer = raised context_ended; calls = suc n; waits = ws } =
                rw (e, h, retry) refl in
              subst (Settled name call ends n (suc left)) (sym same) (on_end n (suc left) ws e h)
          | inr h ↦
              let same : retry name wait call ends (suc left) n s ws ≡ next =
                rw (e, h, retry) refl in
              subst (Settled name call ends n (suc left)) (sym same)
                (on_next n left next e (retry-Settled left (suc n) _ _))
        ]
      ]

-- A request is sent once and again after each 429 while the context lasts, four times at most: the
-- loop ends on the first answer that is no 429 with that answer, and it says that the provider
-- limits the rate only after four calls of which each came back with a 429.
pub do_with_retry-Settled :
    (name : String) (exchange : ℕ → Exchange) (ends : ℕ → Bool)
    → Settled name (λ n. do_sync name (exchange n)) ends 0 3 (do_with_retry name exchange ends)
unfolding do_with_retry max_retries
do_with_retry-Settled name exchange ends =
    retry-Settled name exponential_backoff (λ n. do_sync name (exchange n)) ends 3 0 0 []
