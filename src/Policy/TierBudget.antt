-- ===== src/Policy/TierBudget.antt =====
-- internal/policy/tierbudget.go. `deductMu` is a lock that is only ever tried: `held` says whether
-- another goroutine holds it at the call. The counter is changed by atomic operations.
pub mod Conservation
use go_mcp_gateway.Common.{
  ℕ, List, [], ◌∷◌, ◌++◌, String, Bool, true, false, Option, none, some, if◌then◌else◌,
}
use go_mcp_gateway.Common.Int.{ℤ, pos, leb_ℤ, ◌+ℤ◌, ◌-ℤ◌, wrap64}
use go_mcp_gateway.Policy.Clock.{Time, day, within}

pub record TierDeduction : Type 0 where
  pub at : Time
  pub tokens : ℤ

pub record TierBudget : Type 0 where
  pub tier : String
  pub daily_limit : ℤ
  pub remaining : ℤ
  pub deductions : List TierDeduction

-- ErrTierBudgetExhausted, with its tier.
pub data Exhausted : Type 0 where
  tier_budget_exhausted : String → Exhausted

unfoldable pub new_tier_budget : String → ℤ → TierBudget
new_tier_budget tier daily_limit = record {
  tier = tier;
  daily_limit = daily_limit;
  remaining = daily_limit;
  deductions = [];
}

-- `none` is a nil error.
unfoldable pub check : TierBudget → Option Exhausted
check b = if leb_ℤ b.remaining (pos 0) then some (tier_budget_exhausted b.tier) else none

-- The record of a deduction, which is skipped while the lock is held.
unfoldable pub record_deduction : Bool → Time → ℤ → List TierDeduction → List TierDeduction
record_deduction true now tokens ds = ds
record_deduction false now tokens ds = ds ++ record { at = now; tokens = tokens } ∷ []

unfoldable pub deduct : TierBudget → Bool → Time → ℤ → TierBudget
unfolding record_deduction
deduct b held now tokens = record b {
  remaining = wrap64 (b.remaining +ℤ wrap64 (pos 0 -ℤ tokens));
  deductions = record_deduction held now tokens b.deductions;
}

-- The loop of `Prune`: what is kept, and what it adds up to from `spent` on.
unfoldable pub kept : Time → List TierDeduction → List TierDeduction
kept now [] = []
kept now (d ∷ ds) = let rest = kept now ds in if within day now d.at then d ∷ rest else rest

unfoldable pub sum_kept : Time → ℤ → List TierDeduction → ℤ
sum_kept now spent [] = spent
sum_kept now spent (d ∷ ds) =
    sum_kept now (if within day now d.at then wrap64 (spent +ℤ d.tokens) else spent) ds

unfoldable pub prune : TierBudget → Bool → Time → TierBudget
prune b true now = b
prune b false now = record b {
  remaining = wrap64 (b.daily_limit -ℤ sum_kept now (pos 0) b.deductions);
  deductions = kept now b.deductions;
}

unfoldable pub remaining_of : TierBudget → ℤ
remaining_of b = b.remaining

-- The call itself. `Prune` by another goroutine after the wait is a step of its own.
unfoldable pub mark_upstream_rate_limit : TierBudget → TierBudget
mark_upstream_rate_limit b = record b { remaining = pos 0 }
