-- ===== src/Manager/Swap.antt =====
-- What one swap of internal/modelmanager/swap.go does on each branch.
use go_mcp_gateway.Common.{
  ◌≢◌, ℕ, ◌≡◌, refl, sym, ap, subst, ◌⊎◌, inl, inr, arith, false, none, some, Option, Option-cases,
  String, List, [], ◌∷◌, ◌++◌,
}
use go_mcp_gateway.Common.Dict
use go_mcp_gateway.Vram.{VramBudget, compute_budget}
use go_mcp_gateway.Manager.{
  ModelConfig, ManagerConfig, ResidentState, Process, State, Outcome, Health, up, timed_out,
  context_ended, SwapError, unknown_tier, model_too_large, no_api_key, not_started, unhealthy,
  SwapResult, swapped, failed, poll_health, deadline_of, without, build_args, with_split, mark,
  mark_swapping, stop, stop_resident, new_resident, settle, launch, swap_to, do_swap, kill_process,
  set_resident, run_swap,
}

-- The process was started with the path, the port and the key that the resident state notes.
abbrev pub Serves : ResidentState → Process → Type 0
Serves r p =
    (p.pid ≡ r.pid)
    × (rest : List String) × (p.args
        ≡ ("--model" ∷ r.model_path ∷ "--port" ∷ r.port ∷ "--alias" ∷ r.model_path ∷ "--api-key"
            ∷ r.api_key ∷ [])
          ++ rest)

-- No process runs but the resident's.
abbrev pub Alone : Option ResidentState → List Process → Type 0
Alone none [] = Unit
Alone none (p ∷ ps) = ⊥
Alone (some r) [] = Unit
Alone (some r) (p ∷ []) = Serves r p
Alone (some r) (p ∷ q ∷ ps) = ⊥

without-Alone : (r : ResidentState) (ps : List Process) → Alone (some r) ps → without r.pid ps ≡ []
unfolding without
without-Alone r [] h = refl
without-Alone r (p ∷ []) h = ground (arith, h.0)
without-Alone r (p ∷ q ∷ ps) h = absurd h

-- A swap that succeeded: the resident is the requested tier, and its process is the only one.
pub record Up (cfg : ManagerConfig) (tier : String) (w : Outcome) (s t : State) (a : SwapResult)
    : Type 0 where
  pub resident : ResidentState
  pub process : Process
  pub answer : a ≡ swapped resident
  pub noted : t.resident ≡ some resident
  pub runs : t.live ≡ process ∷ []
  pub serves : Serves resident process
  pub requested : resident.tier ≡ tier
  pub idle : resident.swapping ≡ false
  pub started : w.pid ≡ some resident.pid
  pub healthy : poll_health (deadline_of w.polled_from cfg.health_timeout_sec) w.polls ≡ up
  pub watched : t.watchers ≡ record { pid = resident.pid; tier = tier } ∷ s.watchers

-- Why a swap fails once the resident has been stopped: there is no random key, the process does not
-- start, or its server did not answer before the deadline.
abbrev pub Breaks : ManagerConfig → String → Outcome → SwapError → Type 0
Breaks cfg tier w reason =
    (reason ≡ no_api_key) × (w.api_key ≡ none)
    ⊎ (reason ≡ not_started) × (w.api_key ≢ none) × (w.pid ≡ none)
    ⊎ (reason ≡ unhealthy tier)
      × (w.api_key ≢ none)
      × (w.pid ≢ none)
      × (poll_health (deadline_of w.polled_from cfg.health_timeout_sec) w.polls ≢ up)

-- A swap that failed once the resident had been stopped: nothing is noted, and nothing runs.
pub record Down (cfg : ManagerConfig) (tier : String) (w : Outcome) (s t : State) (a : SwapResult)
    : Type 0 where
  pub reason : SwapError
  pub breaks : Breaks cfg tier w reason
  pub answer : a ≡ failed reason
  pub empty : t.resident ≡ none
  pub idle : t.live ≡ []
  pub kept : t.watchers ≡ s.watchers

pub record Stopped (s t : State) : Type 0 where
  pub empty : t.resident ≡ none
  pub idle : t.live ≡ []
  pub kept : t.watchers ≡ s.watchers

stop-Stopped :
    (r : Option ResidentState) (s : State)
    → Alone r s.live
    → Stopped s (stop (mark r) (record s { resident = mark r }))
unfolding kill_process
stop-Stopped none s h = record { empty = refl; idle = nothing_runs s.live h; kept = refl }
  where
    nothing_runs : (ps : List Process) → Alone none ps → ps ≡ []
    nothing_runs [] k = refl
    nothing_runs (p ∷ ps) k = absurd k
stop-Stopped (some r) s h = record { empty = refl; idle = without-Alone r s.live h; kept = refl }

pub stop_resident-Stopped :
    (s : State) → Alone s.resident s.live → Stopped s (stop_resident (mark_swapping s))
unfolding stop_resident mark_swapping
stop_resident-Stopped s h = stop-Stopped s.resident s h

without-head :
    (pid : ℕ) (args : List String) → without pid (record { pid = pid; args = args } ∷ []) ≡ []
unfolding without
without-head pid args = ground arith

module _ (cfg : ManagerConfig) (tier : String) (model : ModelConfig) (w : Outcome) {s₀ s : State}
    (st : Stopped s₀ s) (keyed : w.api_key ≢ none) where
  abbrev serving : String → ℕ → State
  serving api_key pid = record s {
    live = record { pid = pid; args = build_args model api_key } ∷ s.live;
  }

  unhealthy-Down :
      (api_key : String) (pid : ℕ)
      → w.pid ≡ some pid
      → poll_health (deadline_of w.polled_from cfg.health_timeout_sec) w.polls ≢ up
      → Down cfg tier w s₀
          (set_resident (kill_process pid (serving api_key pid)) none)
          (failed (unhealthy tier))
  unfolding kill_process
  unhealthy-Down api_key pid e ne = record {
    reason = unhealthy tier;
    breaks = inr (inr (refl, keyed, (λ k. cc (e, k)), ne));
    answer = refl;
    empty = refl;
    idle = rw st.idle (without-head pid (build_args model api_key));
    kept = st.kept;
  }

  settle-cases :
      (api_key : String) (pid : ℕ) (h : Health)
      → w.pid ≡ some pid
      → poll_health (deadline_of w.polled_from cfg.health_timeout_sec) w.polls ≡ h
      → let (t, a) = settle tier model api_key pid w.now h (serving api_key pid) in
        Up cfg tier w s₀ t a ⊎ Down cfg tier w s₀ t a
  unfolding build_args
  settle-cases api_key pid up e k = inl (record {
    resident = new_resident tier model api_key pid w.now;
    process = record { pid = pid; args = build_args model api_key };
    answer = refl;
    noted = refl;
    runs = ap (λ t. record { pid = pid; args = build_args model api_key } ∷ t) st.idle;
    serves = (refl, model.extra_args, refl);
    requested = refl;
    idle = refl;
    started = e;
    healthy = k;
    watched = ap (λ t. record { pid = pid; tier = tier } ∷ t) st.kept;
  })
  settle-cases api_key pid timed_out e k = inr (unhealthy-Down api_key pid e (λ u. cc (k, u)))
  settle-cases api_key pid context_ended e k = inr (unhealthy-Down api_key pid e (λ u. cc (k, u)))

  launch-cases :
      (api_key : String)
      → let (t, a) = (launch cfg tier model api_key w s).ends in
        Up cfg tier w s₀ t a ⊎ Down cfg tier w s₀ t a
  unfolding launch
  launch-cases api_key = elim (Option-cases w.pid) [
    | inl e ↦
        let same : (launch cfg tier model api_key w s).ends ≡ (s, failed not_started) =
          rw (e, launch) refl in
        inr (
          subst (λ p. Down cfg tier w s₀ p.0 p.1) (sym same)
            (record {
              reason = not_started;
              breaks = inr (inl (refl, keyed, e));
              answer = refl;
              empty = st.empty;
              idle = st.idle;
              kept = st.kept;
            }))
    | inr (pid, e) ↦
        let h = poll_health (deadline_of w.polled_from cfg.health_timeout_sec) w.polls in
        let same : (launch cfg tier model api_key w s).ends
            ≡ settle tier model api_key pid w.now h (serving api_key pid) =
          rw (e, launch) refl in
        subst (λ p. Up cfg tier w s₀ p.0 p.1 ⊎ Down cfg tier w s₀ p.0 p.1) (sym same)
          (settle-cases api_key pid h e refl)
  ]

swap_to-cases :
    (cfg : ManagerConfig) (tier : String) (model : ModelConfig) (budget : VramBudget) (w : Outcome)
    (s : State)
    → Alone s.resident s.live
    → let (t, a) = (swap_to cfg tier model budget w s).ends in
      Up cfg tier w s t a ⊎ Down cfg tier w s t a
unfolding swap_to
swap_to-cases cfg tier model budget w s h =
    let st = stop_resident-Stopped s h in
    elim (Option-cases w.api_key) [
      | inl e ↦
          let same : (swap_to cfg tier model budget w s).ends
              ≡ (stop_resident (mark_swapping s), failed no_api_key) =
            rw (e, swap_to) refl in
          inr (
            subst (λ p. Down cfg tier w s p.0 p.1) (sym same)
              (record {
                reason = no_api_key;
                breaks = inl (refl, e);
                answer = refl;
                empty = st.empty;
                idle = st.idle;
                kept = st.kept;
              }))
      | inr (api_key, e) ↦
          let same : (swap_to cfg tier model budget w s).ends
              ≡ (launch cfg tier (with_split budget model) api_key w
                  (stop_resident (mark_swapping s))).ends =
            rw (e, swap_to) refl in
          subst (λ p. Up cfg tier w s p.0 p.1 ⊎ Down cfg tier w s p.0 p.1) (sym same)
            (launch-cases cfg tier (with_split budget model) w st (λ k. cc (e, k)) api_key)
    ]

-- The model of a tier, which fits into the memory.
abbrev pub IsFitting : ManagerConfig → String → Type 0
IsFitting cfg tier =
    (model : ModelConfig) × (Dict.lookup tier cfg.models ≡ some model)
    × (budget : VramBudget) × (compute_budget cfg.total_vram_mib cfg.reserved_vram_mib
          model.vram_requirement_mib
        ≡ some budget)

-- A swap to a tier that is not configured, or whose model cannot fit, changes nothing. Any other
-- stops the resident, also if it is of the requested tier. Then it fails with nothing noted and
-- nothing running, because there is no random key, the process does not start or its server does not
-- answer before the deadline; or a process whose server answered before the deadline is the only one
-- running, and the resident has the requested tier and the port, key and path of that process. This
-- holds if no process but the resident's ran before, and a killed process has ended when the kill
-- returns.
pub do_swap-cases :
    (cfg : ManagerConfig) (tier : String) (w : Outcome) (s : State)
    → Alone s.resident s.live
    → let (t, a) = do_swap cfg tier w s in
      IsFitting cfg tier × (Up cfg tier w s t a ⊎ Down cfg tier w s t a)
      ⊎ (t ≡ s)
        × ((a ≡ failed (unknown_tier tier)) × (Dict.lookup tier cfg.models ≡ none)
            ⊎ (a ≡ failed model_too_large)
              × (model : ModelConfig) × (Dict.lookup tier cfg.models ≡ some model)
              × (compute_budget cfg.total_vram_mib cfg.reserved_vram_mib model.vram_requirement_mib
                  ≡ none))
unfolding do_swap run_swap
do_swap-cases cfg tier w s h = elim (Option-cases (Dict.lookup tier cfg.models)) [
  | inl e ↦ inr (rw (e, do_swap, run_swap) (refl, inl (refl, refl)))
  | inr (model, e) ↦
      elim (Option-cases
        (compute_budget cfg.total_vram_mib cfg.reserved_vram_mib model.vram_requirement_mib)) [
          | inl k ↦ inr (rw (e, k, do_swap, run_swap) (refl, inr (refl, model, refl, k)))
          | inr (budget, k) ↦
              let same : do_swap cfg tier w s ≡ (swap_to cfg tier model budget w s).ends =
                rw (e, k, do_swap, run_swap) refl in
              inl (
                (model, e, budget, k),
                subst (λ p. Up cfg tier w s p.0 p.1 ⊎ Down cfg tier w s p.0 p.1) (sym same)
                    (swap_to-cases cfg tier model budget w s h),
              )
        ]
]
