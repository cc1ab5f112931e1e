-- ===== src/Manager/Requests.antt =====
-- The requests to internal/modelmanager: `EnsureLoaded` and `Complete`.
use go_mcp_gateway.Common.{
  ==_iff, ◌≡◌, refl, sym, ap, ◌⊎◌, inl, inr, ◌==◌, none, some, Option, String, [], ◌∷◌, eq_iff,
  name_eq, Bool, true, false, Bool-cases,
}
use go_mcp_gateway.Manager.{
  ResidentState, State, Ensured, loaded, queued, queue_full, enqueue, ensure_from, ensure_loaded,
  mark_swapping, mark, Call, not_encoded, not_built, not_sent, answered, Completion,
  CompletionError, completed, refused, operation_duration, input_tokens, output_tokens, complete,
  no_resident, not_marshalled, not_requested, not_delivered, not_decoded, bad_status,
}

-- What `EnsureLoaded` does at once: it takes a place in the queue if there is one.
abbrev pub Asks : String → State → State × Ensured → Type 0
Asks tier s (t, a) =
    (a ≡ queued) × (s.queue ≡ none) × (t ≡ record s { queue = some tier })
    ⊎ (a ≡ queue_full) × (other : String) × (s.queue ≡ some other) × (t ≡ s)

enqueue-Asks :
    (queue : Option String) (tier : String) (s : State)
    → s.queue ≡ queue
    → Asks tier s (enqueue queue tier s)
enqueue-Asks none tier s e = inl (refl, e, refl)
enqueue-Asks (some other) tier s e = inr (refl, other, e, refl)

ensure_from-cases :
    (r : Option ResidentState) (tier : String) (s : State)
    → ((x : ResidentState) × (r ≡ some x)
        × (x.tier ≡ tier)
        × (x.swapping ≡ false)
        × (ensure_from r tier s ≡ (s, loaded x)))
      ⊎ Asks tier s (ensure_from r tier s)
ensure_from-cases none tier s = inr (enqueue-Asks s.queue tier s refl)
ensure_from-cases (some x) tier s = elim (Bool-cases (name_eq x.tier tier)) [
  | inl e ↦ elim (Bool-cases x.swapping) [
    | inl f ↦ inr (rw (e, f) (enqueue-Asks s.queue tier s refl))
    | inr f ↦ inl (x, refl, (eq_iff x.tier tier).0 e, f, rw (e, f) refl)
  ]
  | inr e ↦ inr (rw e (enqueue-Asks s.queue tier s refl))
]

marked : (o : Option ResidentState) (x : ResidentState) → mark o ≡ some x → x.swapping ≡ true
marked none x e = absurd (cc e)
marked (some r) x e = ap swapping_of (sym e)
  where
    swapping_of : Option ResidentState → Bool
    swapping_of none = true
    swapping_of (some y) = y.swapping

-- `EnsureLoaded` answers at once exactly with the resident, if that is of the tier and no swap is in
-- progress; then nothing changes. Otherwise it takes the one place in the queue, or is refused and
-- changes nothing. While a swap is in progress, it never answers at once.
pub ensure_loaded_lem :
    (tier : String) (s : State)
    → (((r : ResidentState) × (s.resident ≡ some r)
          × (r.tier ≡ tier)
          × (r.swapping ≡ false)
          × (ensure_loaded tier s ≡ (s, loaded r)))
        ⊎ Asks tier s (ensure_loaded tier s))
      × Asks tier (mark_swapping s) (ensure_loaded tier (mark_swapping s))
unfolding ensure_loaded mark_swapping
ensure_loaded_lem tier s = (
  ensure_from-cases s.resident tier s,
  only_asks (ensure_from-cases (mark s.resident) tier (record s { resident = mark s.resident })),
)
  where
    only_asks :
        ((r : ResidentState) × (mark s.resident ≡ some r)
            × (r.tier ≡ tier)
            × (r.swapping ≡ false)
            × (ensure_from (mark s.resident) tier (record s { resident = mark s.resident })
                ≡ (record s { resident = mark s.resident }, loaded r)))
          ⊎ Asks tier
              (record s { resident = mark s.resident })
              (ensure_from (mark s.resident) tier (record s { resident = mark s.resident }))
        → Asks tier
            (record s { resident = mark s.resident })
            (ensure_from (mark s.resident) tier (record s { resident = mark s.resident }))
    only_asks (inl (r, e, same, idle, answer)) = absurd (cc (marked s.resident r e, idle))
    only_asks (inr a) = a

-- `Complete` succeeds exactly if a model is resident and its server answers 200 with a body that
-- decodes; then it measures the time and the tokens of that body. A failure measures no tokens, and
-- the time only if the request could not be delivered. The tier of all that is the resident's.
pub complete_lem :
    (o : Option ResidentState) (x : Call)
    → ((r : ResidentState) × (c : Completion) × (o ≡ some r)
        × (x ≡ answered 200 (some c))
        × (complete o x ≡ (
          completed c,
          operation_duration r.tier
              ∷ input_tokens r.tier c.prompt_tokens
              ∷ output_tokens r.tier c.completion_tokens
              ∷ [],
        )))
      ⊎ ((e : CompletionError) × ((complete o x ≡ (refused e, []))
            ⊎ ((r : ResidentState) × (o ≡ some r)
                × (x ≡ not_sent)
                × (complete o x ≡ (refused e, operation_duration r.tier ∷ [])))))
unfolding complete
complete_lem none x = inr (no_resident, inl refl)
complete_lem (some r) not_encoded = inr (not_marshalled, inl refl)
complete_lem (some r) not_built = inr (not_requested, inl refl)
complete_lem (some r) not_sent = inr (not_delivered, inr (r, refl, refl, refl))
complete_lem (some r) (answered status none) = elim (Bool-cases (status == 200)) [
  | inl e ↦ inr (not_decoded, inl (rw e refl))
  | inr e ↦ inr (bad_status status, inl (rw e refl))
]
complete_lem (some r) (answered status (some c)) = elim (Bool-cases (status == 200)) [
  | inl e ↦ inl (r, c, refl, ap (λ n. answered n (some c)) ((==_iff status 200).0 e), rw e refl)
  | inr e ↦ inr (bad_status status, inl (rw e refl))
]
