-- ===== src/Vram/Split.antt =====
-- Which loads internal/modelmanager/vram.go lets through, and which it splits.
use go_mcp_gateway.Common.{
  ℕ, ◌+◌, ◌*◌, ◌≤◌, ◌<◌, ◌≡◌, ◌⊎◌, inl, inr, refl, sym, ◌∙◌, arith, true, false, Bool-cases, none,
  some, [], ◌∷◌, ltb,
}
use go_mcp_gateway.Common.Int.{pos, sub_ℕ, ltb_ℤ}
use go_mcp_gateway.Vram.{
  VramBudget, budget_of, hard_ceiling_multiplier, compute_budget, layer_split_args,
}

exceeds :
    (total reserved model : ℕ)
    → ltb_ℤ (sub_ℕ total reserved) (pos model) ≡ true
    → total < model + reserved
exceeds total reserved model h = ground (arith, h)

fits :
    (total reserved model : ℕ)
    → ltb_ℤ (sub_ℕ total reserved) (pos model) ≡ false
    → model + reserved ≤ total
fits total reserved model h = ground (arith, h)

args_lem :
    (b : VramBudget)
    → b.needs_layer_split ≡ ltb_ℤ (sub_ℕ b.total_mib b.reserved_mib) (pos b.model_mib)
    → (layer_split_args b ≡ []) × (b.model_mib + b.reserved_mib ≤ b.total_mib)
      ⊎ (layer_split_args b ≡ "-sm" ∷ "layer" ∷ []) × (b.total_mib < b.model_mib + b.reserved_mib)
unfolding layer_split_args
args_lem b h = elim (Bool-cases b.needs_layer_split) [
  | inl e ↦ inr (rw e refl, exceeds b.total_mib b.reserved_mib b.model_mib (sym h ∙ e))
  | inr e ↦ inl (rw e refl, fits b.total_mib b.reserved_mib b.model_mib (sym h ∙ e))
]

-- A model of more than four times the memory is refused. Any other is let through, and it gets the
-- arguments of a layer split exactly if it and the reserve together exceed the memory.
pub compute_budget_lem :
    (total reserved model : ℕ)
    → (compute_budget total reserved model ≡ none) × (4 * total < model)
      ⊎ ((b : VramBudget) × (compute_budget total reserved model ≡ some b)
          × (model ≤ 4 * total)
          × ((layer_split_args b ≡ []) × (model + reserved ≤ total)
              ⊎ (layer_split_args b ≡ "-sm" ∷ "layer" ∷ []) × (total < model + reserved)))
unfolding compute_budget hard_ceiling_multiplier
compute_budget_lem total reserved model = elim (Bool-cases (ltb (total * 4) model)) [
  | inl e ↦ inl (rw e refl, ground (arith, e))
  | inr e ↦ inr (
    budget_of total reserved model,
    rw e refl,
    ground (arith, e),
    args_lem (budget_of total reserved model) refl,
  )
]
