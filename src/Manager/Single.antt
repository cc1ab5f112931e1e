-- ===== src/Manager/Single.antt =====
-- How many servers of internal/modelmanager run at once, over any sequence of its steps.
use go_mcp_gateway.Common.{
  ◌&&◌, ℕ, ◌≡◌, ◌≢◌, refl, sym, ◌∙◌, subst, ◌⊎◌, inl, inr, ◌==◌, not, Bool-cases, none, some,
  Option, String, List, [], ◌∷◌, All, All-map, Has, All-Has, eq_iff, name_eq,
}
use go_mcp_gateway.Manager.{
  serve, enqueue, ensure_from, ManagerConfig, ResidentState, Process, Watcher, State, Outcome,
  SwapResult, without, new, clear, forget, do_swap, ensure_loaded, process_swap, watch_process,
  process_exit, moments,
}
use go_mcp_gateway.Manager.Moments.{AtMostOne, passed-AtMostOne}
use go_mcp_gateway.Manager.Swap.{Alone, Up, Down, do_swap-cases}

-- The process of a watcher has ended.
abbrev pub HasEnded : Watcher → State → Type 0
HasEnded v s = All (λ p. p.pid ≢ v.pid) s.live

-- No watcher of the requested tier is left over.
abbrev pub Settled : Option String → List Watcher → Type 0
Settled none ws = Unit
Settled (some tier) ws = All (λ v. v.tier ≢ tier) ws

-- One step: a call of `EnsureLoaded`, a round of the swap processor, a process that ends, and its
-- watcher that notices. A swap starts only when the watchers of its tier's earlier processes are
-- through.
pub data Step (cfg : ManagerConfig) : State → State → Type 0 where
  request : (tier : String) (s : State) → Step cfg s (ensure_loaded tier s).0
  swap :
      (w : Outcome) (s : State) → Settled s.queue s.watchers → Step cfg s (process_swap cfg w s).0
  exit : (pid : ℕ) (s : State) → Step cfg s (process_exit pid s)
  watch :
      (v : Watcher) (s : State) → Has v s.watchers → HasEnded v s → Step cfg s (watch_process v s)

pub data Reached (cfg : ManagerConfig) : State → Type 0 where
  started : Reached cfg new
  after : {s t : State} → Reached cfg s → Step cfg s t → Reached cfg t

-- A watcher is the resident's own, or of another tier.
abbrev Harmless : Option ResidentState → Watcher → Type 0
Harmless none v = Unit
Harmless (some r) v = (v.pid ≡ r.pid) ⊎ (v.tier ≢ r.tier)

record Sound (s : State) : Type 0 where
  alone : Alone s.resident s.live
  harmless : All (Harmless s.resident) s.watchers

forget-All :
    (P : Watcher → Type 0) (v : Watcher) (ws : List Watcher) → All P ws → All P (forget v ws)
unfolding forget
forget-All P v [] h = tt
forget-All P v (u ∷ ws) h = elim (Bool-cases (u.pid == v.pid)) [
  | inl e ↦ rw (e, forget) (forget-All P v ws h.1)
  | inr e ↦ rw (e, forget) (h.0, forget-All P v ws h.1)
]

Alone-without :
    (r : Option ResidentState) (pid : ℕ) (ps : List Process) → Alone r ps → Alone r (without pid ps)
unfolding without
Alone-without none pid [] h = tt
Alone-without none pid (p ∷ ps) h = absurd h
Alone-without (some r) pid [] h = tt
Alone-without (some r) pid (p ∷ []) h = elim (Bool-cases (p.pid == pid)) [
  | inl e ↦ rw (e, without) tt
  | inr e ↦ rw (e, without) h
]
Alone-without (some r) pid (p ∷ q ∷ ps) h = absurd h

-- When a harmless watcher is through, what it cleared did not run.
Alone-clear :
    (r : Option ResidentState) (v : Watcher) (ps : List Process)
    → Alone r ps
    → Harmless r v
    → All (λ p. p.pid ≢ v.pid) ps
    → Alone (clear v.tier r) ps
Alone-clear none v ps h k ended = h
Alone-clear (some r) v [] h k ended = elim (Bool-cases (name_eq r.tier v.tier)) [
  | inl e ↦ rw e tt
  | inr e ↦ rw e tt
]
Alone-clear (some r) v (p ∷ []) h (inl own) ended = absurd (ended.0 (h.0 ∙ sym own))
Alone-clear (some r) v (p ∷ []) h (inr other) ended = elim (Bool-cases (name_eq r.tier v.tier)) [
  | inl e ↦ absurd (other (sym ((eq_iff r.tier v.tier).0 e)))
  | inr e ↦ rw e h
]
Alone-clear (some r) v (p ∷ q ∷ ps) h k ended = absurd h

Harmless-clear :
    (r : Option ResidentState) (tier : String) (v : Watcher)
    → Harmless r v
    → Harmless (clear tier r) v
Harmless-clear none tier v h = tt
Harmless-clear (some r) tier v h = elim (Bool-cases (name_eq r.tier tier)) [
  | inl e ↦ rw e tt
  | inr e ↦ rw e h
]

watch-Sound :
    (v : Watcher) (s : State)
    → Has v s.watchers
    → HasEnded v s
    → Sound s
    → Sound (watch_process v s)
unfolding watch_process
watch-Sound v s found ended i = record {
  alone =
      Alone-clear s.resident v s.live i.alone (All-Has (Harmless s.resident) i.harmless found)
        ended;
  harmless =
      forget-All (Harmless (clear v.tier s.resident)) v s.watchers
        (All-map s.watchers (Harmless-clear s.resident v.tier) i.harmless);
}

Up-Sound :
    (cfg : ManagerConfig) (tier : String) (w : Outcome) (s t : State) (a : SwapResult)
    → All (λ v. v.tier ≢ tier) s.watchers
    → Up cfg tier w s t a
    → Sound t
Up-Sound cfg tier w s t a settled u = record {
  alone = rw (u.noted, u.runs) u.serves;
  harmless =
      rw (u.noted, u.watched)
        (inl refl, All-map s.watchers (λ v ne. inr (λ e. ne (e ∙ u.requested))) settled);
}

Down-Sound :
    (cfg : ManagerConfig) (tier : String) (w : Outcome) (s t : State) (a : SwapResult)
    → Down cfg tier w s t a
    → Sound t
Down-Sound cfg tier w s t a d = record {
  alone = rw (d.empty, d.idle) tt;
  harmless = rw d.empty (nothing t.watchers);
}
  where
    nothing : (ws : List Watcher) → All (Harmless none) ws
    nothing [] = tt
    nothing (v ∷ ws) = (tt, nothing ws)

do_swap-Sound :
    (cfg : ManagerConfig) (tier : String) (w : Outcome) (s : State)
    → All (λ v. v.tier ≢ tier) s.watchers
    → Sound s
    → Sound (do_swap cfg tier w s).0
do_swap-Sound cfg tier w s settled i = elim (do_swap-cases cfg tier w s i.alone) [
  | inl (_, inl u) ↦ Up-Sound cfg tier w s _ _ settled u
  | inl (_, inr d) ↦ Down-Sound cfg tier w s _ _ d
  | inr same ↦ subst Sound (sym same.0) i
]

serve-Sound :
    (cfg : ManagerConfig) (w : Outcome) (queue : Option String) (s : State)
    → Settled queue s.watchers
    → Sound s
    → Sound (serve queue cfg w s).0
serve-Sound cfg w none s h i = i
serve-Sound cfg w (some tier) s h i =
    do_swap-Sound cfg tier w (record s { queue = none }) h
      (record { alone = i.alone; harmless = i.harmless })

enqueue-Sound :
    (queue : Option String) (tier : String) (s : State) → Sound s → Sound (enqueue queue tier s).0
enqueue-Sound none tier s i = record { alone = i.alone; harmless = i.harmless }
enqueue-Sound (some other) tier s i = i

ensure_from-Sound :
    (r : Option ResidentState) (tier : String) (s : State)
    → Sound s
    → Sound (ensure_from r tier s).0
ensure_from-Sound none tier s i = enqueue-Sound s.queue tier s i
ensure_from-Sound (some r) tier s i = elim (Bool-cases (name_eq r.tier tier && not r.swapping)) [
  | inl e ↦ rw e i
  | inr e ↦ rw e (enqueue-Sound s.queue tier s i)
]

Step-Sound : {cfg : ManagerConfig} {s t : State} → Step cfg s t → Sound s → Sound t
unfolding process_exit process_swap ensure_loaded
Step-Sound (request tier s) i = ensure_from-Sound s.resident tier s i
Step-Sound {cfg} (swap w s settled) i = serve-Sound cfg w s.queue s settled i
Step-Sound (exit pid s) i = record {
  alone = Alone-without s.resident pid s.live i.alone;
  harmless = i.harmless;
}
Step-Sound (watch v s found ended) i = watch-Sound v s found ended i

Reached-Sound : {cfg : ManagerConfig} {s : State} → Reached cfg s → Sound s
unfolding new
Reached-Sound started = record { alone = tt; harmless = tt }
Reached-Sound (after r st) = Step-Sound st (Reached-Sound r)

-- At any time at most one server runs. Between two rounds of the swap processor it is the one that
-- the resident state notes, started with its port and its key. In every state that a next round passes
-- through, it is still that one, or it is the new one and no resident is noted: the old server is
-- stopped before the new one starts. This holds after any sequence of requests, swaps, ends of
-- processes and watchers, as long as a swap to a tier starts only when the watchers of that tier's
-- earlier processes are through. No other step comes within a round, and a killed process is taken to
-- have ended when the kill returns; what else the system answers is free.
pub Reached-Alone :
    (cfg : ManagerConfig) (w : Outcome) (s : State)
    → Reached cfg s
    → Alone s.resident s.live × All AtMostOne (moments cfg w s)
unfolding moments
Reached-Alone cfg w s r =
    let alone = (Reached-Sound r).alone in (alone, passed-AtMostOne cfg w s.queue s alone)
