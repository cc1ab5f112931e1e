-- ===== src/Manager/Stale.antt =====
-- What the watcher of an earlier process does to the resident of internal/modelmanager.
use go_mcp_gateway.Common.{
  ℕ, ◌≡◌, refl, sym, ap, ◌∙◌, subst, inl, inr, none, some, Option-cases, String, ◌∷◌, eq_iff,
}
use go_mcp_gateway.Common.Dict
use go_mcp_gateway.Vram.{VramBudget, compute_budget}
use go_mcp_gateway.Manager.{
  stop, mark, ModelConfig, ManagerConfig, ResidentState, Process, Watcher, State, Outcome, Health,
  up, timed_out, context_ended, SwapResult, swapped, poll_health, deadline_of, build_args,
  with_split, mark_swapping, stop_resident, settle, launch, swap_to, do_swap, watch_process, clear,
  run_swap,
}

-- A swap that starts one process and stops none.
record Adds (s : State) (p : State × SwapResult) (r : ResidentState) : Type 0 where
  process : Process
  runs : p.0.live ≡ process ∷ s.live
  same : process.pid ≡ r.pid

settle-Adds :
    (tier : String) (model : ModelConfig) (api_key : String) (pid : ℕ) (w : Outcome) (h : Health)
    (s : State) (r : ResidentState)
    → let t : State = record s {
      live = record { pid = pid; args = build_args model api_key } ∷ s.live;
    } in
      (settle tier model api_key pid w.now h t).1 ≡ swapped r
      → Adds s (settle tier model api_key pid w.now h t) r
settle-Adds tier model api_key pid w up s r e = record {
  process = record { pid = pid; args = build_args model api_key };
  runs = refl;
  same = cc e;
}
settle-Adds tier model api_key pid w timed_out s r e = absurd (cc e)
settle-Adds tier model api_key pid w context_ended s r e = absurd (cc e)

launch-Adds :
    (cfg : ManagerConfig) (tier : String) (model : ModelConfig) (api_key : String) (w : Outcome)
    (s : State) (r : ResidentState)
    → (launch cfg tier model api_key w s).ends.1 ≡ swapped r
    → Adds s (launch cfg tier model api_key w s).ends r
unfolding launch
launch-Adds cfg tier model api_key w s r k = elim (Option-cases w.pid) [
  | inl e ↦ absurd (cc (rw (e, launch) at k))
  | inr (pid, e) ↦
      let h = poll_health (deadline_of w.polled_from cfg.health_timeout_sec) w.polls in
      let t : State = record s {
        live = record { pid = pid; args = build_args model api_key } ∷ s.live;
      } in
      let same : (launch cfg tier model api_key w s).ends
          ≡ settle tier model api_key pid w.now h t =
        rw (e, launch) refl in
      subst (λ p. Adds s p r) (sym same)
        (settle-Adds tier model api_key pid w h s r (ap (λ p. p.1) (sym same) ∙ k))
]

nothing_stopped : (s : State) → s.resident ≡ none → (stop_resident (mark_swapping s)).live ≡ s.live
unfolding stop_resident mark_swapping
nothing_stopped s empty = ap (λ r. (stop (mark r) (record s { resident = mark r })).live) empty

swap_to-Adds :
    (cfg : ManagerConfig) (tier : String) (model : ModelConfig) (budget : VramBudget) (w : Outcome)
    (s : State) (r : ResidentState)
    → s.resident ≡ none
    → (swap_to cfg tier model budget w s).ends.1 ≡ swapped r
    → Adds s (swap_to cfg tier model budget w s).ends r
unfolding swap_to
swap_to-Adds cfg tier model budget w s r empty k = elim (Option-cases w.api_key) [
  | inl e ↦ absurd (cc (rw (e, swap_to) at k))
  | inr (api_key, e) ↦
      let stopped = stop_resident (mark_swapping s) in
      let same : (swap_to cfg tier model budget w s).ends
          ≡ (launch cfg tier (with_split budget model) api_key w stopped).ends =
        rw (e, swap_to) refl in
      let a =
        launch-Adds cfg tier (with_split budget model) api_key w stopped r
          (ap (λ p. p.1) (sym same) ∙ k) in
      subst (λ p. Adds s p r) (sym same)
        (record {
          process = a.process;
          runs = a.runs ∙ ap (λ ps. a.process ∷ ps) (nothing_stopped s empty);
          same = a.same;
        })
]

do_swap-Adds :
    (cfg : ManagerConfig) (tier : String) (w : Outcome) (s : State) (r : ResidentState)
    → s.resident ≡ none
    → (do_swap cfg tier w s).1 ≡ swapped r
    → Adds s (do_swap cfg tier w s) r
unfolding do_swap run_swap
do_swap-Adds cfg tier w s r empty k = elim (Option-cases (Dict.lookup tier cfg.models)) [
  | inl e ↦ absurd (cc (rw (e, do_swap, run_swap) at k))
  | inr (model, e) ↦
      elim (Option-cases
        (compute_budget cfg.total_vram_mib cfg.reserved_vram_mib model.vram_requirement_mib)) [
          | inl f ↦ absurd (cc (rw (e, f, do_swap, run_swap) at k))
          | inr (budget, f) ↦
              let same : do_swap cfg tier w s ≡ (swap_to cfg tier model budget w s).ends =
                rw (e, f, do_swap, run_swap) refl in
              subst (λ p. Adds s p r) (sym same)
                (swap_to-Adds cfg tier model budget w s r empty (ap (λ p. p.1) (sym same) ∙ k))
        ]
]

-- A watcher of another process of the resident's tier, an earlier one, clears the resident although
-- its server runs on; the next swap that succeeds then starts a second server beside it.
pub stale_watch :
    (cfg : ManagerConfig) (s : State) (r : ResidentState) (v : Watcher) (tier : String)
    (w : Outcome) (next : ResidentState)
    → s.resident ≡ some r
    → r.tier ≡ v.tier
    → (do_swap cfg tier w (watch_process v s)).1 ≡ swapped next
    → ((watch_process v s).resident ≡ none)
      × ((watch_process v s).live ≡ s.live)
      × (p : Process) × ((do_swap cfg tier w (watch_process v s)).0.live ≡ p ∷ s.live)
      × (p.pid ≡ next.pid)
unfolding watch_process
stale_watch cfg s r v tier w next noted same k =
    let cleared : clear v.tier s.resident ≡ none = rw (noted, (eq_iff r.tier v.tier).1 same) refl in
    let a = do_swap-Adds cfg tier w (watch_process v s) next cleared k in
    (cleared, refl, a.process, a.runs, a.same)
