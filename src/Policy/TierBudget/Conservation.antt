-- ===== src/Policy/TierBudget/Conservation.antt =====
-- The counter of a tier budget (internal/policy/tierbudget.go) against its deductions.
use go_mcp_gateway.Common.{
  ℕ, ◌+◌, ◌≤◌, ◌<◌, ◌^◌, ◌≡◌, ◌↔◌, refl, List, [], ◌∷◌, ◌++◌, Bool, true, false, arith, All, none,
  if◌then◌else◌, ◌≢◌, All-append, String, ◌∙◌, ap, subst, ltb, ◌*◌,
}
use go_mcp_gateway.Common.Int.{ℤ, pos, ◌+ℤ◌, ◌-ℤ◌, ◌≤ℤ◌, wrap64, pos_part, sub_ℕ}
use go_mcp_gateway.Policy.Clock.{Time, day, within}
use go_mcp_gateway.Policy.TierBudget.{
  TierBudget, TierDeduction, new_tier_budget, check, record_deduction, deduct, kept, sum_kept,
  prune, mark_upstream_rate_limit,
}

-- What happens to a budget: a completion is charged, the sweep or the end of a wait prunes it with
-- the lock free or held, or the provider has answered 429.
pub data Event : Type 0 where
  charged : Bool → Time → ℕ → Event
  pruned : Bool → Time → Event
  marked : Event

pub apply : TierBudget → Event → TierBudget
apply b (charged held now n) = deduct b held now (pos n)
apply b (pruned held now) = prune b held now
apply b marked = mark_upstream_rate_limit b

-- The deductions of the day that ends at `now`, as a plain number.
pub spent : Time → List TierDeduction → ℕ
spent now [] = 0
spent now (d ∷ ds) = (if within day now d.at then pos_part d.tokens else 0) + spent now ds

pub total : List TierDeduction → ℕ
total [] = 0
total (d ∷ ds) = pos_part d.tokens + total ds

abbrev pub Counts : List TierDeduction → Type 0
Counts = All (λ d. pos 0 ≤ℤ d.tokens)

spent-le-total : (now : Time) (ds : List TierDeduction) → spent now ds ≤ total ds
unfolding spent total
spent-le-total now [] = omega arith
spent-le-total now (d ∷ ds) = ground (arith, spent-le-total now ds)

add_tokens :
    (acc : ℕ) (z : ℤ)
    → pos 0 ≤ℤ z
    → acc + pos_part z < 2 ^ 63
    → wrap64 (pos acc +ℤ z) ≡ pos (acc + pos_part z)
unfolding wrap64 ◌+ℤ◌
add_tokens acc z h k = ground arith

sum_kept-spent :
    (now : Time) (acc : ℕ) (ds : List TierDeduction)
    → Counts ds
    → acc + spent now ds < 2 ^ 63
    → sum_kept now (pos acc) ds ≡ pos (acc + spent now ds)
unfolding spent sum_kept
sum_kept-spent now acc [] h k = ground arith
sum_kept-spent now acc (d ∷ ds) h k = ground (
  arith,
  add_tokens acc d.tokens h.0,
  sum_kept-spent now (acc + pos_part d.tokens) ds h.1,
  sum_kept-spent now acc ds h.1,
)

sum_kept_all :
    (now : Time) (ds : List TierDeduction)
    → Counts ds
    → spent now ds < 2 ^ 63
    → sum_kept now (pos 0) ds ≡ pos (spent now ds)
sum_kept_all now ds h k = sum_kept-spent now 0 ds h (omega arith) ∙ ap pos (omega arith)

total-snoc :
    (now : Time) (n : ℕ) (ds : List TierDeduction)
    → total (ds ++ record { at = now; tokens = pos n } ∷ []) ≡ total ds + n
unfolding total
total-snoc now n [] = ground arith
total-snoc now n (d ∷ ds) = omega (arith, total-snoc now n ds)

spent-kept : (now : Time) (ds : List TierDeduction) → total (kept now ds) ≡ spent now ds
unfolding spent total kept
spent-kept now [] = refl
spent-kept now (d ∷ ds) = ground (arith, spent-kept now ds)

-- The counter is the daily limit less what is on record.
pub record Balanced (limit : ℕ) (b : TierBudget) : Type 0 where
  pub daily : b.daily_limit ≡ pos limit
  pub balance : b.remaining ≡ sub_ℕ limit (total b.deductions)
  pub counts : Counts b.deductions

charge_exact :
    (limit t n : ℕ)
    → limit < 2 ^ 63
    → t + n < 2 ^ 63
    → wrap64 (sub_ℕ limit t +ℤ wrap64 (pos 0 -ℤ pos n)) ≡ sub_ℕ limit (t + n)
unfolding wrap64 ◌+ℤ◌ ◌-ℤ◌
charge_exact limit t n h k = ground arith

left_exact :
    (limit s : ℕ) → limit < 2 ^ 63 → s < 2 ^ 63 → wrap64 (pos limit -ℤ pos s) ≡ sub_ℕ limit s
unfolding wrap64 ◌-ℤ◌
left_exact limit s h k = ground arith

Counts-kept : (now : Time) (ds : List TierDeduction) → Counts ds → Counts (kept now ds)
unfolding kept
Counts-kept now [] h = tt
Counts-kept now (d ∷ ds) h = ground (arith, Counts-kept now ds h.1)

deduct-Balanced :
    (limit : ℕ) (b : TierBudget) (now : Time) (n : ℕ)
    → limit < 2 ^ 63
    → total b.deductions + n < 2 ^ 63
    → Balanced limit b
    → Balanced limit (deduct b false now (pos n))
unfolding deduct record_deduction
deduct-Balanced limit b now n hl ht v = record {
  daily = v.daily;
  balance = rw (v.balance, total-snoc now n b.deductions) (charge_exact limit _ n hl ht);
  counts = All-append _ b.deductions _ v.counts (omega arith, tt);
}

prune-Balanced :
    (limit : ℕ) (b : TierBudget) (now : Time)
    → limit < 2 ^ 63
    → total b.deductions < 2 ^ 63
    → b.daily_limit ≡ pos limit
    → Counts b.deductions
    → Balanced limit (prune b false now)
unfolding prune
prune-Balanced limit b now hl ht e c =
    let bound : spent now b.deductions < 2 ^ 63 = omega (arith, spent-le-total now b.deductions) in
    record {
      daily = e;
      balance =
          rw (e, sum_kept_all now b.deductions c bound, spent-kept now b.deductions)
            (left_exact limit _ hl bound);
      counts = Counts-kept now b.deductions c;
    }

check_exact :
    (limit : ℕ) (b : TierBudget)
    → Balanced limit b
    → (check b ≡ none) ↔ (total b.deductions < limit)
unfolding check
check_exact limit b v = ground (arith, v.balance)

-- The events of a budget, newest first.
pub run : TierBudget → List Event → TierBudget
run b [] = b
run b (e ∷ es) = apply (run b es) e

-- No lock was found held, and no upstream limit was marked.
abbrev pub Undisturbed : Event → Type 0
Undisturbed (charged held now n) = held ≡ false
Undisturbed (pruned held now) = held ≡ false
Undisturbed marked = ⊥

unfoldable pub charges : List Event → ℕ
charges [] = 0
charges (charged held now n ∷ es) = n + charges es
charges (pruned held now ∷ es) = charges es
charges (marked ∷ es) = charges es

total-deduct :
    (now : Time) (n : ℕ) (b : TierBudget)
    → total (deduct b false now (pos n)).deductions ≡ total b.deductions + n
unfolding deduct record_deduction
total-deduct now n b = total-snoc now n b.deductions

total-prune :
    (now : Time) (b : TierBudget) → total (prune b false now).deductions ≤ total b.deductions
unfolding prune
total-prune now b = omega (arith, spent-kept now b.deductions, spent-le-total now b.deductions)

record Sound (limit bound : ℕ) (b : TierBudget) : Type 0 where
  balanced : Balanced limit b
  bounded : total b.deductions ≤ bound

run-Sound :
    (tier : String) (limit : ℕ) (es : List Event)
    → limit < 2 ^ 63
    → charges es < 2 ^ 63
    → All Undisturbed es
    → Sound limit (charges es) (run (new_tier_budget tier (pos limit)) es)
unfolding run apply charges new_tier_budget total
run-Sound tier limit [] hl hc u = record {
  balanced = record { daily = refl; balance = ground arith; counts = tt };
  bounded = omega arith;
}
run-Sound tier limit (charged held now n ∷ es) hl hc u =
    let before = run-Sound tier limit es hl (omega arith) u.1 in
    rw u.0 (record {
      balanced = deduct-Balanced limit _ now n hl (omega (arith, before.bounded)) before.balanced;
      bounded =
          omega
            (arith, total-deduct now n (run (new_tier_budget tier (pos limit)) es), before.bounded);
    })
run-Sound tier limit (pruned held now ∷ es) hl hc u =
    let before = run-Sound tier limit es hl hc u.1 in
    rw u.0 (record {
      balanced =
          prune-Balanced limit _ now hl (omega (arith, before.bounded)) before.balanced.daily
            before.balanced.counts;
      bounded =
          omega
            (arith, total-prune now (run (new_tier_budget tier (pos limit)) es), before.bounded);
    })
run-Sound tier limit (marked ∷ es) hl hc u = absurd u.0

abbrev pub time_of : ℕ → Event → Time
time_of before (charged held now n) = now
time_of before (pruned held now) = now
time_of before marked = before

-- When the newest event happened.
unfoldable pub latest : List Event → Time
latest [] = 0
latest (e ∷ es) = time_of (latest es) e

-- The clock does not run backwards.
abbrev pub InOrder : List Event → Type 0
InOrder [] = Unit
InOrder (e ∷ es) = (latest es ≤ latest (e ∷ es)) × InOrder es

-- What a history charges in the 24 hours that end at `now`.
unfoldable pub charged_in_day : Time → List Event → ℕ
charged_in_day now [] = 0
charged_in_day now (charged held t n ∷ es) =
    (if ltb now (t + 24 * 3600 * 1_000_000_000) then n else 0) + charged_in_day now es
charged_in_day now (pruned held t ∷ es) = charged_in_day now es
charged_in_day now (marked ∷ es) = charged_in_day now es

-- What a history leaves charged to the tier: at a prune, what the 24 hours before it charge, and
-- every charge since.
unfoldable pub owed : List Event → ℕ
owed [] = 0
owed (charged held t n ∷ es) = n + owed es
owed (pruned held t ∷ es) = charged_in_day t es
owed (marked ∷ es) = owed es

spent-snoc :
    (now t n : ℕ) (ds : List TierDeduction)
    → spent now (ds ++ record { at = t; tokens = pos n } ∷ [])
      ≡ (if within day now t then n else 0) + spent now ds
unfolding spent
spent-snoc now t n [] = ground arith
spent-snoc now t n (d ∷ ds) = omega (arith, spent-snoc now t n ds)

spent-later : (now t : ℕ) (ds : List TierDeduction) → t ≤ now → spent now (kept t ds) ≡ spent now ds
unfolding spent kept
spent-later now t [] h = refl
spent-later now t (d ∷ ds) h = ground (arith, spent-later now t ds h)

-- The record holds the history.
record Recorded (es : List Event) (ds : List TierDeduction) : Type 0 where
  recent : (now : Time) → latest es ≤ now → spent now ds ≡ charged_in_day now es
  whole : total ds ≡ owed es

deduct-Recorded :
    (b : TierBudget) (t n : ℕ) (es : List Event)
    → latest es ≤ t
    → Recorded es b.deductions
    → Recorded (charged false t n ∷ es) (deduct b false t (pos n)).deductions
unfolding deduct record_deduction latest charged_in_day owed
deduct-Recorded b t n es h r = record {
  recent =
      λ now k. omega (arith, spent-snoc now t n b.deductions, r.recent now (omega (arith, h, k)));
  whole = omega (arith, total-snoc t n b.deductions, r.whole);
}

prune-Recorded :
    (b : TierBudget) (t : ℕ) (es : List Event)
    → latest es ≤ t
    → Recorded es b.deductions
    → Recorded (pruned false t ∷ es) (prune b false t).deductions
unfolding prune latest charged_in_day owed
prune-Recorded b t es h r = record {
  recent = λ now k. spent-later now t b.deductions k ∙ r.recent now (omega (arith, h, k));
  whole = spent-kept t b.deductions ∙ r.recent t h;
}

run-Recorded :
    (tier : String) (limit : ℤ) (es : List Event)
    → InOrder es
    → All Undisturbed es
    → Recorded es (run (new_tier_budget tier limit) es).deductions
unfolding run apply new_tier_budget latest charged_in_day owed spent total
run-Recorded tier limit [] o u = record { recent = λ now k. refl; whole = refl }
run-Recorded tier limit (charged held t n ∷ es) o u =
    rw u.0 (deduct-Recorded _ t n es o.0 (run-Recorded tier limit es o.1 u.1))
run-Recorded tier limit (pruned held t ∷ es) o u =
    rw u.0 (prune-Recorded _ t es o.0 (run-Recorded tier limit es o.1 u.1))
run-Recorded tier limit (marked ∷ es) o u = absurd u.0

-- The budget is exact while nothing disturbs it: after any history of completions and prunes on a
-- new budget, in the order of the clock, the counter is the daily limit less what the history leaves
-- charged, which is what the 24 hours before the last prune charged and every charge since; and
-- `Check` lets a request through exactly if that is below the limit. The limit, and all charges
-- together, are below 2^63; no lock is found held, and no upstream limit is marked.
pub run-Balanced :
    (tier : String) (limit : ℕ) (es : List Event)
    → limit < 2 ^ 63
    → charges es < 2 ^ 63
    → InOrder es
    → All Undisturbed es
    → let b = run (new_tier_budget tier (pos limit)) es in
      (b.remaining ≡ sub_ℕ limit (owed es)) × ((check b ≡ none) ↔ (owed es < limit))
run-Balanced tier limit es hl hc o u =
    let b = run (new_tier_budget tier (pos limit)) es in
    let v = (run-Sound tier limit es hl hc u).balanced in
    let r = (run-Recorded tier (pos limit) es o u).whole in
    (
      v.balance ∙ ap (sub_ℕ limit) r,
      subst (λ n. (check b ≡ none) ↔ (n < limit)) r (check_exact limit b v),
    )

-- A deduction that finds the lock held is charged only until the next prune: pruning restores what
-- was spent, as if the completion had never been made.
pub deduct_contended :
    (b : TierBudget) (now later : Time) (tokens : ℤ)
    → prune (deduct b true now tokens) false later ≡ prune b false later
unfolding prune deduct record_deduction
deduct_contended b now later tokens = refl

-- A mark by an upstream 429 lasts only to the next prune, whatever the wait: the counter is then
-- what it would have been with no mark. Until then the check refuses.
pub mark_lasts_to_prune :
    (b : TierBudget) (later : Time)
    → (check (mark_upstream_rate_limit b) ≢ none)
      × (prune (mark_upstream_rate_limit b) false later ≡ prune b false later)
unfolding prune mark_upstream_rate_limit check
mark_lasts_to_prune b later = (λ e. cc, refl)
