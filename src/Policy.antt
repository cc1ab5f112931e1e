-- ===== src/Policy.antt =====
-- internal/policy: session buckets, tier budgets and the registry that keeps them.
pub mod Clock
pub mod Bucket
pub mod TierBudget
pub mod Registry
