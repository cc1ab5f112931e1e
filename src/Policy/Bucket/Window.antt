-- ===== src/Policy/Bucket/Window.antt =====
-- The sliding window of `CheckRate` (internal/policy/bucket.go) against the history of a session.
use go_mcp_gateway.Common.{
  ap, ℕ, ◌+◌, ◌≤◌, ◌≡◌, ◌≢◌, refl, inl, inr, List, [], ◌∷◌, ◌++◌, length, false, arith, Bool-cases,
  if◌then◌else◌, ◌↔◌, ◌∙◌,
}
use go_mcp_gateway.Common.Int.{ℤ, pos, ◌≤ℤ◌, leb_ℤ, ◌<ℤ◌}
use go_mcp_gateway.Policy.Clock.{Time, minute, within}
use go_mcp_gateway.Policy.Bucket.{
  TokenBucket, Verdict, allowed, panics, new_token_bucket, prune_times, refuse_rate, check_rate,
}

-- How many of the times lie in the minute that ends at `now`.
pub recent : Time → List Time → ℕ
recent now [] = 0
recent now (t ∷ ts) = (if within minute now t then 1 else 0) + recent now ts

-- What was pruned is not recent later either.
recent-prune :
    (now cut : Time) (ts : List Time) → cut ≤ now → recent now (prune_times cut ts) ≡ recent now ts
unfolding recent prune_times
recent-prune now cut [] h = refl
recent-prune now cut (t ∷ ts) h = ground (arith, recent-prune now cut ts h)

recent-snoc :
    (now : Time) (ts : List Time) (t : Time) → recent now (ts ++ t ∷ []) ≡ recent now (t ∷ ts)
unfolding recent
recent-snoc now [] t = refl
recent-snoc now (x ∷ ts) t = ground (arith, recent-snoc now ts t)

length-prune : (now : Time) (ts : List Time) → length (prune_times now ts) ≡ recent now ts
unfolding recent prune_times
length-prune now [] = refl
length-prune now (t ∷ ts) = ground (arith, length-prune now ts)

-- The calls of one session, newest first: what the clock read, at the call and inside it.
abbrev pub Calls : Type 0
Calls = List (Time × Time)

abbrev pub last_call : Calls → Time
last_call [] = 0
last_call ((now, _) ∷ cs) = now

-- The clock does not go back between calls.
abbrev pub InOrder : Calls → Type 0
InOrder [] = Unit {0}
InOrder ((now, _) ∷ cs) = (last_call cs ≤ now) × InOrder cs

-- The bucket after the calls, and the times of the requests that it let through, newest first.
abbrev note : Time → TokenBucket × Verdict → List Time → TokenBucket × List Time
note now (b, allowed) admitted = (b, now ∷ admitted)
note now (b, _) admitted = (b, admitted)

pub replay : TokenBucket → Calls → TokenBucket × List Time
replay b [] = (b, [])
replay b ((now, clock) ∷ cs) =
    let (b', admitted) = replay b cs in note now (check_rate b' now clock) admitted

-- In the minute that ends with each admitted request, at most `limit` requests are admitted.
pub WithinRate : ℤ → List Time → Type 0
WithinRate limit [] = Unit
WithinRate limit (t ∷ ts) = (pos (recent t (t ∷ ts)) ≤ℤ limit) × WithinRate limit ts

-- The bucket remembers all admitted requests that a call from `now` on can count.
record Remembers (limit : ℤ) (since : Time) (b : TokenBucket) (admitted : List Time) : Type 0 where
  same_limit : b.rate_limit_per_min ≡ limit
  same_recent : (now : Time) → since ≤ now → recent now b.request_times ≡ recent now admitted
  within_rate : WithinRate limit admitted

admit-Remembers :
    (limit : ℤ) (since now : Time) (b : TokenBucket) (admitted : List Time)
    → since ≤ now
    → Remembers limit since b admitted
    → leb_ℤ b.rate_limit_per_min (pos (length (prune_times now b.request_times))) ≡ false
    → Remembers limit now
        (record b { request_times = prune_times now b.request_times ++ now ∷ []; last_seen = now })
        (now ∷ admitted)
unfolding recent WithinRate
admit-Remembers limit since now b admitted h m e = record {
  same_limit = m.same_limit;
  same_recent = λ later k. ground (
    arith,
    recent-snoc later (prune_times now b.request_times) now,
    recent-prune later now b.request_times k,
    m.same_recent later (omega arith),
  );
  within_rate = (
    ground (arith, length-prune now b.request_times, m.same_recent now h, m.same_limit),
    m.within_rate,
  );
}

refuse-Remembers :
    (limit : ℤ) (since now : Time) (b : TokenBucket) (admitted : List Time)
    → since ≤ now
    → Remembers limit since b admitted
    → Remembers limit now
        (record b { request_times = prune_times now b.request_times; last_seen = now })
        admitted
refuse-Remembers limit since now b admitted h m = record {
  same_limit = m.same_limit;
  same_recent =
      λ later k. recent-prune later now b.request_times k ∙ m.same_recent later (omega arith);
  within_rate = m.within_rate;
}

note-refused :
    (now : Time) (b : TokenBucket) (valid : List Time) (clock : Time) (admitted : List Time)
    → note now (b, refuse_rate valid clock) admitted ≡ (b, admitted)
unfolding refuse_rate
note-refused now b [] clock admitted = refl
note-refused now b (t ∷ ts) clock admitted = refl

abbrev Holds : ℤ → Time → TokenBucket × List Time → Type 0
Holds limit since (b, admitted) = Remembers limit since b admitted

step-Remembers :
    (limit : ℤ) (since now clock : Time) (b : TokenBucket) (admitted : List Time)
    → since ≤ now
    → Remembers limit since b admitted
    → Holds limit now (note now (check_rate b now clock) admitted)
unfolding check_rate
step-Remembers limit since now clock b admitted h m =
    elim (Bool-cases
      (leb_ℤ b.rate_limit_per_min (pos (length (prune_times now b.request_times))))) [
        | inl e ↦ rw e (
            rw (note-refused now _ (prune_times now b.request_times) clock admitted)
              (refuse-Remembers limit since now b admitted h m))
        | inr e ↦ rw e (admit-Remembers limit since now b admitted h m e)
      ]

replay-Remembers :
    (rate tokens : ℤ) (start : Time) (calls : Calls)
    → InOrder calls
    → Holds rate (last_call calls) (replay (new_token_bucket rate tokens start) calls)
unfolding replay new_token_bucket WithinRate
replay-Remembers rate tokens start [] h = record {
  same_limit = refl;
  same_recent = λ now k. refl;
  within_rate = tt;
}
replay-Remembers rate tokens start ((now, clock) ∷ calls) h =
    step-Remembers rate (last_call calls) now clock _ _ h.0
      (replay-Remembers rate tokens start calls h.1)

-- The sliding window is exact: over all calls of `CheckRate` on a new bucket, made in the order of
-- the clock, the minute that ends with any admitted request holds at most the limit of them.
pub check_rate-WithinRate :
    (rate tokens : ℤ) (start : Time) (calls : Calls)
    → InOrder calls
    → WithinRate rate (replay (new_token_bucket rate tokens start) calls).1
check_rate-WithinRate rate tokens start calls h =
    (replay-Remembers rate tokens start calls h).within_rate

refuse_rate-ne-allowed : (valid : List Time) (clock : Time) → refuse_rate valid clock ≢ allowed
unfolding refuse_rate
refuse_rate-ne-allowed [] clock e = cc
refuse_rate-ne-allowed (t ∷ ts) clock e = cc

refuse_rate-panics :
    (valid : List Time) (clock : Time) → (refuse_rate valid clock ≡ panics) ↔ (length valid ≡ 0)
unfolding refuse_rate
refuse_rate-panics [] clock = (λ _. refl, λ _. refl)
refuse_rate-panics (t ∷ ts) clock = (λ e. cc, λ e. absurd (omega arith))

-- `CheckRate` lets a request through exactly when fewer than the limit lie in the last minute, and
-- panics exactly when none does and the limit is not positive, since the refusal reads the first
-- entry of the list.
pub check_rate_lem :
    (b : TokenBucket) (now clock : Time)
    → (((check_rate b now clock).1 ≡ allowed)
        ↔ (pos (recent now b.request_times) <ℤ b.rate_limit_per_min))
      × (((check_rate b now clock).1 ≡ panics)
          ↔ ((recent now b.request_times ≡ 0) × (b.rate_limit_per_min ≤ℤ pos 0)))
unfolding check_rate
check_rate_lem b now clock =
    let valid = prune_times now b.request_times in
    let n = length-prune now b.request_times in
    elim (Bool-cases (leb_ℤ b.rate_limit_per_min (pos (length valid)))) [
      | inl e ↦ rw e (
        (λ k. absurd (refuse_rate-ne-allowed valid clock k), λ k. absurd (ground (arith, n))),
        (
          λ k. (
            omega (arith, n, (refuse_rate-panics valid clock).0 k),
            ground (arith, (refuse_rate-panics valid clock).0 k),
          ),
          λ k. (refuse_rate-panics valid clock).1 (omega (arith, n, k.0)),
        ),
      )
      | inr e ↦ rw e (
        (λ k. ground (arith, n), λ k. refl),
        (λ k. absurd (cc k), λ k. absurd (ground (arith, n, k.0, k.1))),
      )
    ]

pub recent_nothing : (now : Time) → recent now [] ≡ 0
unfolding recent
recent_nothing now = refl

recent-now : (now : Time) (ts : List Time) → recent now (now ∷ ts) ≡ recent now ts + 1
unfolding recent
recent-now now ts = ground arith

-- A request that is let through counts from then on.
pub check_rate-recent :
    (b : TokenBucket) (now clock : Time)
    → (check_rate b now clock).1 ≡ allowed
    → recent now (check_rate b now clock).0.request_times ≡ recent now b.request_times + 1
unfolding check_rate
check_rate-recent b now clock h =
    let valid = prune_times now b.request_times in
    elim (Bool-cases (leb_ℤ b.rate_limit_per_min (pos (length valid)))) [
      | inl e ↦ absurd (refuse_rate-ne-allowed valid clock (rw (e, check_rate) at h))
      | inr e ↦
          rw (e, check_rate)
            (recent-snoc now valid now
              ∙ recent-now now valid
              ∙ ap (λ n. n + 1) (recent-prune now now b.request_times (omega arith)))
    ]
