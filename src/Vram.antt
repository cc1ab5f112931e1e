-- ===== src/Vram.antt =====
-- internal/modelmanager/vram.go. Sizes are in MiB and an `int` of Go is kept unbounded: the product
-- with the ceiling's multiplier stays within 64 bits below 2 ^ 61.
pub mod Split
use go_mcp_gateway.Common.{
  ℕ, ◌*◌, ltb, Bool, true, false, if◌then◌else◌, Option, none, some, String, List, [], ◌∷◌,
}
use go_mcp_gateway.Common.Int.{ℤ, pos, sub_ℕ, ltb_ℤ}

pub record VramBudget : Type 0 where
  pub total_mib : ℕ
  pub reserved_mib : ℕ
  pub available_mib : ℤ
  pub model_mib : ℕ
  pub needs_layer_split : Bool

unfoldable pub hard_ceiling_multiplier : ℕ
hard_ceiling_multiplier = 4

abbrev pub budget_of : ℕ → ℕ → ℕ → VramBudget
budget_of total_mib reserved_mib model_mib = record {
  total_mib = total_mib;
  reserved_mib = reserved_mib;
  available_mib = sub_ℕ total_mib reserved_mib;
  model_mib = model_mib;
  needs_layer_split = ltb_ℤ (sub_ℕ total_mib reserved_mib) (pos model_mib);
}

-- `none` is ErrModelTooLargeForVRAM.
unfoldable pub compute_budget : ℕ → ℕ → ℕ → Option VramBudget
unfolding hard_ceiling_multiplier
compute_budget total_mib reserved_mib model_mib =
    if ltb (total_mib * hard_ceiling_multiplier) model_mib
    then none
    else some (budget_of total_mib reserved_mib model_mib)

unfoldable pub layer_split_args : VramBudget → List String
layer_split_args budget = if budget.needs_layer_split then "-sm" ∷ "layer" ∷ [] else []
