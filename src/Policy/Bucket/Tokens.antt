-- ===== src/Policy/Bucket/Tokens.antt =====
-- The hourly token budget of a session (internal/policy/bucket.go) against its deductions.
use go_mcp_gateway.Common.{
  ℕ, ◌+◌, ◌≤◌, ◌<◌, ◌^◌, ◌≡◌, ◌↔◌, refl, List, [], ◌∷◌, ◌++◌, arith, Bool-cases, All, inl, inr,
  if◌then◌else◌,
}
use go_mcp_gateway.Common.Int.{ℤ, pos, ◌+ℤ◌, ◌≤ℤ◌, ◌<ℤ◌, leb_ℤ, wrap64, pos_part}
use go_mcp_gateway.Policy.Clock.{Time, hour, within}
use go_mcp_gateway.Policy.Bucket.{
  TokenBucket, TokenDeduction, allowed, recent_deductions, sum_recent, check_tokens, deduct,
}

-- What was spent in the hour that ends at `now`, as a plain number.
unfoldable pub spent : Time → List TokenDeduction → ℕ
spent now [] = 0
spent now (d ∷ ds) = (if within hour now d.at then pos_part d.tokens else 0) + spent now ds

-- Token counts are not negative.
abbrev pub Counts : List TokenDeduction → Type 0
Counts = All (λ d. pos 0 ≤ℤ d.tokens)

add_tokens :
    (acc : ℕ) (z : ℤ)
    → pos 0 ≤ℤ z
    → acc + pos_part z < 2 ^ 63
    → wrap64 (pos acc +ℤ z) ≡ pos (acc + pos_part z)
unfolding wrap64 ◌+ℤ◌
add_tokens acc z h k = ground arith

sum_recent-spent :
    (now : Time) (acc : ℕ) (ds : List TokenDeduction)
    → Counts ds
    → acc + spent now ds < 2 ^ 63
    → sum_recent now (pos acc) ds ≡ pos (acc + spent now ds)
unfolding spent sum_recent
sum_recent-spent now acc [] h k = ground arith
sum_recent-spent now acc (d ∷ ds) h k = ground (
  arith,
  add_tokens acc d.tokens h.0,
  sum_recent-spent now (acc + pos_part d.tokens) ds h.1,
  sum_recent-spent now acc ds h.1,
)

spent-recent :
    (later now : Time) (ds : List TokenDeduction)
    → now ≤ later
    → spent later (recent_deductions now ds) ≡ spent later ds
unfolding spent recent_deductions
spent-recent later now [] h = refl
spent-recent later now (d ∷ ds) h = ground (arith, spent-recent later now ds h)

spent-deduct :
    (later now : Time) (tokens : ℤ) (ds : List TokenDeduction)
    → spent later (ds ++ record { at = now; tokens = tokens } ∷ [])
      ≡ spent later ds + (if within hour later now then pos_part tokens else 0)
unfolding spent
spent-deduct later now tokens [] = ground arith
spent-deduct later now tokens (d ∷ ds) = ground (arith, spent-deduct later now tokens ds)

charged-recent :
    (now later done : Time) (n : ℤ) (ds : List TokenDeduction) (b : TokenBucket)
    → now ≤ later
    → b.token_deductions ≡ recent_deductions now ds
    → spent later (deduct b done n).token_deductions
      ≡ spent later ds + (if within hour later done then pos_part n else 0)
unfolding deduct
charged-recent now later done n ds b o e = rw e (
    ground
      (arith, spent-deduct later done n (recent_deductions now ds), spent-recent later now ds o))

-- While the spending of the hour fits an int, `CheckTokens` lets a request through exactly if less
-- than the limit was spent in the last hour. It forgets nothing that a later check counts: a
-- completion of `n` tokens that follows adds to the spending of a later hour `n` if it lies in that
-- hour, and nothing otherwise.
pub check_tokens_lem :
    (b : TokenBucket) (now clock later done : Time) (n : ℤ)
    → Counts b.token_deductions
    → spent now b.token_deductions < 2 ^ 63
    → now ≤ later
    → (((check_tokens b now clock).1 ≡ allowed)
        ↔ (pos (spent now b.token_deductions) <ℤ b.token_limit_per_hour))
      × (spent later (deduct (check_tokens b now clock).0 done n).token_deductions
          ≡ spent later b.token_deductions + (if within hour later done then pos_part n else 0))
unfolding check_tokens
check_tokens_lem b now clock later done n h k o =
    let total = sum_recent-spent now 0 b.token_deductions h (omega arith) in
    elim (Bool-cases (leb_ℤ b.token_limit_per_hour (sum_recent now (pos 0) b.token_deductions))) [
      | inl e ↦ rw e (
        (λ a. cc a, λ a. absurd (ground (arith, total))),
        charged-recent now later done n b.token_deductions _ o refl,
      )
      | inr e ↦ rw e (
        (λ a. ground (arith, total), λ a. refl),
        charged-recent now later done n b.token_deductions _ o refl,
      )
    ]
