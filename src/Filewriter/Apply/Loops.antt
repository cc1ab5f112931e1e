-- ===== src/Filewriter/Apply/Loops.antt =====
-- The two loops of `Apply` (internal/filewriter/apply.go): what they leave can be undone.
use go_mcp_gateway.Common.{
  ◌≡◌, refl, sym, ap, ◌∙◌, subst, true, false, not, Bool-cases, none, some, List, [], ◌∷◌, inl, inr,
}
use go_mcp_gateway.Common.Text.{Str}
use go_mcp_gateway.Filewriter.Files.{nothing, Fs, Os, contents}
use go_mcp_gateway.Filewriter.Writer.{PlannedOp, is_delete}
use go_mcp_gateway.Filewriter.Writer.Planned.{prior}
use go_mcp_gateway.Filewriter.Apply.{
  Step, State, Attempt, done, failed, failing, is_cancelled, fails, apply_write, apply_delete,
  write_pass, delete_pass, then_do, each,
}
use go_mcp_gateway.Filewriter.Apply.Effects.{
  Contents, set, effects, set_same, set-set, contents-remove,
}
use go_mcp_gateway.Filewriter.Apply.Writes.{Reversible, written, apply_write-Reversible}
use go_mcp_gateway.Filewriter.Apply.Passes.{Pass, write_in, delete_in, all_in, Met, IsLocal}

-- What a planned operation needs of the contents in the loop that serves it.
abbrev pub WriteNeeds : Contents → PlannedOp → Type 0
WriteNeeds d p = is_delete p.operation ≡ false → d p.abs ≡ prior p

abbrev pub DeleteNeeds : Contents → PlannedOp → Type 0
DeleteNeeds d p = is_delete p.operation ≡ true → (d p.abs ≡ prior p) × (p.skipped ≡ not p.existed)

absent_if : (p : PlannedOp) → p.skipped ≡ not p.existed → p.skipped ≡ true → prior p ≡ none
absent_if p h k = elim (Bool-cases p.existed) [
  | inl e ↦ absurd (cc (rw e at h, k))
  | inr e ↦ rw e refl
]

present_if :
    (p : PlannedOp) → p.skipped ≡ not p.existed → p.skipped ≡ false → prior p ≡ some p.before
present_if p h k = elim (Bool-cases p.existed) [
  | inl e ↦ rw e refl
  | inr e ↦ absurd (cc (rw e at h, k))
]

module _ (os : Os) (fresh : (fs : Fs) (d t : Str) → os.temp_name fs d ≡ some t → fs t ≡ nothing)
    (steps : Str → Step) (c : Contents) where
  -- An attempt, then what stands to run after it.
  pub after_first :
      (a : Attempt) (rest : State → Attempt) (later : Contents → Contents)
      (Ready : Contents → Type 0) (now : Contents)
      → Ready now
      → Reversible c now a
      → ((t : State)
          → Ready (contents t.fs)
          → effects t.undos (contents t.fs) ≡ c
          → Reversible c (later (contents t.fs)) (rest t))
      → Reversible c (later now) (then_do a rest)
  unfolding Reversible
  after_first (done t) rest later Ready now r (back, same) k =
      subst (λ d. Reversible c (later d) (rest t)) same (k t (subst Ready (sym same) r) back)
  after_first (failed e t) rest later Ready now r h k = h

  pub write_pass-Reversible :
      (p : PlannedOp) (s : State)
      → WriteNeeds (contents s.fs) p
      → effects s.undos (contents s.fs) ≡ c
      → Reversible c (write_in p (contents s.fs)) (write_pass os steps p s)
  unfolding write_pass Reversible
  write_pass-Reversible p s r b = elim (Bool-cases (is_delete p.operation)) [
    | inl e ↦ rw (e, Reversible) (b, rw e refl)
    | inr e ↦ elim (Bool-cases (is_cancelled (steps p.abs))) [
      | inl i ↦
          let same : write_pass os steps p s ≡ failing p s = rw (e, i) refl in
          subst (Reversible c _) (sym same) b
      | inr i ↦
          let same : write_pass os steps p s ≡ apply_write os (steps p.abs) p s = rw (e, i) refl in
          let target : write_in p (contents s.fs) ≡ written p (contents s.fs) = rw e refl in
          subst (Reversible c _) (sym same) (
            subst (λ d. Reversible c d (apply_write os (steps p.abs) p s)) (sym target)
              (apply_write-Reversible os fresh (steps p.abs) p s c (r e) b))
    ]
  ]

  apply_delete-Reversible :
      (step : Step) (p : PlannedOp) (s : State)
      → contents s.fs p.abs ≡ some p.before
      → effects s.undos (contents s.fs) ≡ c
      → Reversible c (set p.abs none (contents s.fs)) (apply_delete os step p s)
  unfolding apply_delete Reversible
  apply_delete-Reversible step p s m b = elim (Bool-cases (fails step)) [
    | inl e ↦ rw (e, Reversible) b
    | inr e ↦
        let gone = contents-remove os p.abs s.fs in
        let back =
          set-set p.abs (some p.before) none (contents s.fs)
          ∙ set_same p.abs (some p.before) (contents s.fs) m in
        rw (e, Reversible)
          (ap (effects s.undos) (ap (set p.abs (some p.before)) gone ∙ back) ∙ b, gone)
  ]

  pub delete_pass-Reversible :
      (p : PlannedOp) (s : State)
      → DeleteNeeds (contents s.fs) p
      → effects s.undos (contents s.fs) ≡ c
      → Reversible c (delete_in p (contents s.fs)) (delete_pass os steps p s)
  unfolding delete_pass Reversible
  delete_pass-Reversible p s r b = elim (Bool-cases (is_delete p.operation)) [
    | inr e ↦ rw (e, Reversible) (b, rw e refl)
    | inl e ↦ elim (Bool-cases p.skipped) [
      | inl k ↦
          rw (e, k, Reversible)
            (b, rw e (sym (set_same p.abs none (contents s.fs) ((r e).0 ∙ absent_if p (r e).1 k))))
      | inr k ↦ elim (Bool-cases (is_cancelled (steps p.abs))) [
        | inl i ↦ rw (e, k, i, Reversible) b
        | inr i ↦
            let same : delete_pass os steps p s ≡ apply_delete os (steps p.abs) p s =
              rw (e, k, i) refl in
            let target : delete_in p (contents s.fs) ≡ set p.abs none (contents s.fs) = rw e refl in
            subst (Reversible c _) (sym same) (
              subst (λ d. Reversible c d (apply_delete os (steps p.abs) p s)) (sym target)
                (apply_delete-Reversible (steps p.abs) p s ((r e).0 ∙ present_if p (r e).1 k) b))
      ]
    ]
  ]

  -- How one pass goes, over operations that find what they need.
  pub each-Reversible :
      (g : Pass) (l : IsLocal g) (Needs : Contents → PlannedOp → Type 0)
      (same : (p : PlannedOp) (d e : Contents) → d p.abs ≡ e p.abs → Needs d p → Needs e p)
      (f : PlannedOp → State → Attempt)
      → ((p : PlannedOp) (s : State)
          → Needs (contents s.fs) p
          → effects s.undos (contents s.fs) ≡ c
          → Reversible c (g p (contents s.fs)) (f p s))
      → (ps : List PlannedOp) (s : State) → Met g l Needs same ps (contents s.fs)
      → effects s.undos (contents s.fs) ≡ c
      → Reversible c (all_in g ps (contents s.fs)) (each f ps s)
  unfolding each Reversible
  each-Reversible g l Needs same f h [] s r b = (b, refl)
  each-Reversible g l Needs same f h (p ∷ ps) s r b =
      after_first (f p s) (each f ps) (all_in g ps) (Met g l Needs same ps) (g p (contents s.fs))
        r.1 (h p s r.0 b) (λ t k back. each-Reversible g l Needs same f h ps t k back)
