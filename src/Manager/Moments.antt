-- ===== src/Manager/Moments.antt =====
-- The states that one swap of internal/modelmanager/swap.go passes through.
use go_mcp_gateway.Common.{
  ℕ, ◌≡◌, ◌⊎◌, inl, inr, none, some, Option, String, List, [], ◌∷◌, All, Option-cases, ap,
}
use go_mcp_gateway.Common.Dict
use go_mcp_gateway.Vram.{VramBudget, compute_budget}
use go_mcp_gateway.Manager.{
  ManagerConfig, ResidentState, Process, State, Outcome, passed, swap_to, mark, run_swap, launch,
  mark_swapping, ModelConfig, VramBudget, stop_resident, build_args, with_split,
}
use go_mcp_gateway.Manager.Swap.{Stopped, stop_resident-Stopped, Alone, Stopped}

-- At most one process runs: the resident's, or one that starts while no resident is noted.
abbrev pub AtMostOne : State → Type 0
AtMostOne s = Alone s.resident s.live ⊎ ((s.resident ≡ none) × (p : Process) × (s.live ≡ p ∷ []))

Alone-mark : (r : Option ResidentState) (ps : List Process) → Alone r ps → Alone (mark r) ps
Alone-mark none ps h = h
Alone-mark (some r) [] h = tt
Alone-mark (some r) (p ∷ []) h = h
Alone-mark (some r) (p ∷ q ∷ ps) h = absurd h

swap_to-AtMostOne :
    (cfg : ManagerConfig) (tier : String) (model : ModelConfig) (budget : VramBudget) (w : Outcome)
    (s : State)
    → Alone s.resident s.live
    → All AtMostOne (swap_to cfg tier model budget w s).between
unfolding swap_to launch mark_swapping
swap_to-AtMostOne cfg tier model budget w s h = elim (Option-cases w.api_key) [
  | inl e ↦ rw (e, swap_to) (marked, (stopped, tt))
  | inr (api_key, e) ↦ elim (Option-cases w.pid) [
    | inl k ↦ rw (e, k, swap_to, launch) (marked, (stopped, tt))
    | inr (pid, k) ↦ rw (e, k, swap_to, launch) (marked, (stopped, (begun api_key pid, tt)))
  ]
]
  where
    st : Stopped s (stop_resident (mark_swapping s))
    st = stop_resident-Stopped s h

    marked : AtMostOne (mark_swapping s)
    marked = inl (Alone-mark s.resident s.live h)

    stopped : AtMostOne (stop_resident (mark_swapping s))
    stopped = inl (rw (st.empty, st.idle) tt)

    begun :
        (api_key : String) (pid : ℕ)
        → AtMostOne (record (stop_resident (mark_swapping s)) {
          live =
              record { pid = pid; args = build_args (with_split budget model) api_key }
              ∷ (stop_resident (mark_swapping s)).live;
        })
    begun api_key pid = inr (
      st.empty,
      record { pid = pid; args = build_args (with_split budget model) api_key },
      ap (λ ps. record { pid = pid; args = build_args (with_split budget model) api_key } ∷ ps)
          st.idle,
    )

run_swap-AtMostOne :
    (cfg : ManagerConfig) (tier : String) (w : Outcome) (s : State)
    → Alone s.resident s.live
    → All AtMostOne (run_swap cfg tier w s).between
unfolding run_swap
run_swap-AtMostOne cfg tier w s h = elim (Option-cases (Dict.lookup tier cfg.models)) [
  | inl e ↦ rw (e, run_swap) tt
  | inr (model, e) ↦
      elim (Option-cases
        (compute_budget cfg.total_vram_mib cfg.reserved_vram_mib model.vram_requirement_mib)) [
          | inl k ↦ rw (e, k, run_swap) tt
          | inr (budget, k) ↦ rw (e, k, run_swap) (swap_to-AtMostOne cfg tier model budget w s h)
        ]
]

pub passed-AtMostOne :
    (cfg : ManagerConfig) (w : Outcome) (queue : Option String) (s : State)
    → Alone s.resident s.live
    → All AtMostOne (passed queue cfg w s)
passed-AtMostOne cfg w none s h = tt
passed-AtMostOne cfg w (some tier) s h = run_swap-AtMostOne cfg tier w (record s { queue = none }) h
