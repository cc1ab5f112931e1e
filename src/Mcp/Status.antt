-- ===== src/Mcp/Status.antt =====
-- What budget_status and rate_status of internal/mcp/handlers.go report, and what rate_status does.
use go_mcp_gateway.Common.{
  zero, suc, ◌+◌, ◌≡◌, ◌≢◌, refl, sym, ap, ◌∙◌, subst, ◌⊎◌, inl, inr, arith, true, false,
  Bool-cases, none, some, Option, Option-cases, String, name_eq, name_eq_refl, eq_iff,
}
use go_mcp_gateway.Common.Dict
use go_mcp_gateway.Common.Dict.{lookup-insert}
use go_mcp_gateway.Common.Int.{ℤ, pos, negsuc}
use go_mcp_gateway.Policy.Clock.{Time}
use go_mcp_gateway.Policy.Bucket
use go_mcp_gateway.Policy.Bucket.{
  TokenBucket, Verdict, allowed, rate_limited, token_budget_exhausted, panics,
}
use go_mcp_gateway.Policy.Bucket.Window.{recent, check_rate-recent}
use go_mcp_gateway.Policy.TierBudget
use go_mcp_gateway.Policy.TierBudget.{TierBudget}
use go_mcp_gateway.Policy.Registry.{
  Registry, Readings, pass, after_rate, check_bucket, get_or_create_session, answer_for,
  check_session, tier_remaining,
}
use go_mcp_gateway.Manager.{ResidentState}
use go_mcp_gateway.Mcp.{
  TierBudgetStatus, slot, local_slot_remaining, is_minus_one, status_of, rate_status,
}

-- The report of a tier that needs a place in the memory of the GPU.
abbrev pub AsSlot : Option ResidentState → String → TierBudgetStatus → Type 0
AsSlot o tier st =
    (st.currency ≡ "vram_slot")
    × (st.limit ≡ pos 1)
    × (((st.remaining ≡ pos 1)
          × (x : ResidentState) × (o ≡ some x)
          × (x.tier ≡ tier)
          × (x.swapping ≡ false))
        ⊎ ((st.remaining ≡ pos 0)
            × ((o ≡ none)
                ⊎ (x : ResidentState) × (o ≡ some x) × ((x.tier ≢ tier) ⊎ (x.swapping ≡ true)))))

slot-cases :
    (o : Option ResidentState) (tier : String)
    → AsSlot o tier
        (record { tier = tier; currency = "vram_slot"; limit = pos 1; remaining = slot o tier })
slot-cases none tier = (refl, refl, inr (refl, inl refl))
slot-cases (some x) tier = elim (Bool-cases (name_eq x.tier tier)) [
  | inl e ↦ elim (Bool-cases x.swapping) [
    | inl f ↦ (refl, refl, inr (rw (e, f) refl, inr (x, refl, inr f)))
    | inr f ↦ (refl, refl, inl (rw (e, f) refl, x, refl, (eq_iff x.tier tier).0 e, f))
  ]
  | inr e ↦
      (refl, refl, inr (rw e refl, inr (x, refl, inl (λ k. cc ((eq_iff x.tier tier).1 k, e)))))
]

minus_one-cases :
    (z : ℤ)
    → ((is_minus_one z ≡ true) × (z ≡ negsuc 0)) ⊎ ((is_minus_one z ≡ false) × (z ≢ negsuc 0))
minus_one-cases (pos n) = inr (refl, λ e. cc e)
minus_one-cases (negsuc zero) = inl (refl, refl)
minus_one-cases (negsuc (suc n)) = inr (refl, λ e. ground (arith, e))

abbrev as_slot : Registry → Option ResidentState → String → TierBudgetStatus
as_slot r o tier = record {
  tier = tier;
  currency = "vram_slot";
  limit = pos 1;
  remaining = slot o tier;
}

-- A tier without a budget is reported as a slot, with 1 remaining exactly if its model is resident
-- and no swap is in progress. A tier with a budget is reported in tokens, with what is left of it,
-- unless it is overspent by exactly one token: then it, too, is reported as a slot.
pub status_of_lem :
    (r : Registry) (o : Option ResidentState) (tier : String)
    → (Dict.lookup tier r.tiers ≡ none) × AsSlot o tier (status_of r o tier)
      ⊎ ((b : TierBudget) × (Dict.lookup tier r.tiers ≡ some b)
          × ((b.remaining ≢ negsuc 0)
                × (status_of r o tier ≡ record {
                  tier = tier;
                  currency = "tokens";
                  limit = negsuc 0;
                  remaining = b.remaining;
                })
              ⊎ (b.remaining ≡ negsuc 0) × AsSlot o tier (status_of r o tier)))
unfolding status_of local_slot_remaining tier_remaining TierBudget.remaining_of
status_of_lem r o tier = elim (Option-cases (Dict.lookup tier r.tiers)) [
  | inl e ↦
      let same : status_of r o tier ≡ as_slot r o tier = rw (e, status_of, tier_remaining) refl in
      inl (e, subst (AsSlot o tier) (sym same) (slot-cases o tier))
  | inr (b, e) ↦ elim (minus_one-cases b.remaining) [
    | inl (f, k) ↦
        let same : status_of r o tier ≡ as_slot r o tier =
          rw (e, f, status_of, tier_remaining) refl in
        inr (b, e, inr (k, subst (AsSlot o tier) (sym same) (slot-cases o tier)))
    | inr (f, k) ↦ inr (b, e, inl (k, rw (e, f, status_of, tier_remaining) refl))
  ]
]

check_tokens_keeps :
    (b : TokenBucket) (now clock : Time)
    → (Bucket.check_tokens b now clock).0.request_times ≡ b.request_times
unfolding Bucket.check_tokens Bucket.hourly_tokens
check_tokens_keeps b now clock = ground arith

after_rate-cases :
    (t : Readings) (p : TokenBucket × Verdict)
    → (after_rate t p).1 ≡ allowed
    → (p.1 ≡ allowed) × ((after_rate t p).0.request_times ≡ p.0.request_times)
unfolding after_rate
after_rate-cases t (b, allowed) e = (refl, check_tokens_keeps b t.now t.token_clock)
after_rate-cases t (b, rate_limited n) e = absurd (cc e)
after_rate-cases t (b, token_budget_exhausted n) e = absurd (cc e)
after_rate-cases t (b, panics) e = absurd (cc e)

check_bucket-recent :
    (b : TokenBucket) (t : Readings)
    → (check_bucket b t).1 ≡ allowed
    → recent t.now (check_bucket b t).0.request_times ≡ recent t.now b.request_times + 1
unfolding check_bucket
check_bucket-recent b t h =
    let (passed, keeps) = after_rate-cases t (Bucket.check_rate b t.now t.rate_clock) h in
    ap (recent t.now) keeps ∙ check_rate-recent b t.now t.rate_clock passed

answer-allowed : (sid : String) (v : Verdict) → answer_for sid v ≡ pass → v ≡ allowed
answer-allowed sid allowed e = refl
answer-allowed sid (rate_limited n) e = absurd (cc e)
answer-allowed sid (token_budget_exhausted n) e = absurd (cc e)
answer-allowed sid panics e = absurd (cc e)

pass-allowed :
    (r : Registry) (sid : String) (t : Readings)
    → (check_session r sid t).1 ≡ pass
    → (check_bucket (get_or_create_session r sid t.created) t).1 ≡ allowed
unfolding check_session
pass-allowed r sid t h = answer-allowed sid _ h

stored :
    (r : Registry) (sid : String) (t : Readings) (created : Time)
    → get_or_create_session (check_session r sid t).0 sid created
      ≡ (check_bucket (get_or_create_session r sid t.created) t).0
unfolding check_session get_or_create_session
stored r sid t created =
    let b = (check_bucket (get_or_create_session r sid t.created) t).0 in
    let found : Dict.lookup sid (Dict.insert sid b r.sessions) ≡ some b =
      lookup-insert sid sid b r.sessions ∙ rw (name_eq_refl sid) refl in
    rw (found, get_or_create_session) refl

-- Asking for the status of a session that is not blocked makes one request of it: one more counts
-- in the minute up to now.
pub rate_status_counts :
    (r : Registry) (sid : String) (context : Option String) (t : Readings) (created : Time)
    → sid ≢ ""
    → (check_session r sid t).1 ≡ pass
    → recent t.now (get_or_create_session (rate_status r sid context t).0 sid created).request_times
      ≡ recent t.now (get_or_create_session r sid t.created).request_times + 1
unfolding rate_status
rate_status_counts r sid context t created named passed =
    rw (unnamed, rate_status)
      (ap (λ (b : TokenBucket). recent t.now b.request_times) (stored r sid t created)
        ∙ check_bucket-recent (get_or_create_session r sid t.created) t
            (pass-allowed r sid t passed))
  where
    unnamed : name_eq sid "" ≡ false
    unnamed = elim (Bool-cases (name_eq sid "")) [
      | inl e ↦ absurd (named ((eq_iff sid "").0 e))
      | inr e ↦ e
    ]
