-- ===== src/Filewriter/Apply/Atomic.antt =====
-- `Apply` of internal/filewriter/apply.go: the whole batch or nothing.
use go_mcp_gateway.Common.{
  ◌&&◌, not, ◌≡◌, refl, sym, ap, ◌∙◌, true, some, List, [], map, All, All-map, All-zip,
}
use go_mcp_gateway.Common.Text.{Str}
use go_mcp_gateway.Filewriter.Types.{FileOp, WriteError, Result, ok, err}
use go_mcp_gateway.Filewriter.PathSafe.{Host, PathValidator}
use go_mcp_gateway.Filewriter.Files.{nothing, Fs, Os, contents}
use go_mcp_gateway.Filewriter.Writer.{PlannedOp, plan, dry_run}
use go_mcp_gateway.Filewriter.Writer.Planned.{Matches, Disjoint, plan-Planned}
use go_mcp_gateway.Filewriter.Apply.{
  Step, Attempt, done, failed, rollback, write_pass, delete_pass, then_do, each, Batch, finish,
  apply_planned, apply, change, apply_plan, Change,
}
use go_mcp_gateway.Filewriter.Apply.Effects.{Contents, rollback-contents}
use go_mcp_gateway.Filewriter.Apply.Writes.{Reversible}
use go_mcp_gateway.Filewriter.Apply.Passes.{
  write_in, delete_in, all_in, write_in-delete, write_in-IsLocal, delete_in-IsLocal, all_in-own,
  Met, needs-Met, both_passes, Untouched, wanted, both_passes-Untouched, both_passes-wanted,
}
use go_mcp_gateway.Filewriter.Apply.Loops.{
  WriteNeeds, DeleteNeeds, after_first, write_pass-Reversible, delete_pass-Reversible,
  each-Reversible,
}

abbrev changes_of : Result WriteError Batch → List Change
changes_of (ok b) = b.changes
changes_of (err e) = []

module _ (os : Os) (fresh : (fs : Fs) (d t : Str) → os.temp_name fs d ≡ some t → fs t ≡ nothing)
    (steps : Str → Step) where
  WriteNeeds-same :
      (p : PlannedOp) (d e : Contents) → d p.abs ≡ e p.abs → WriteNeeds d p → WriteNeeds e p
  WriteNeeds-same p d e h n = λ w. sym h ∙ n w

  DeleteNeeds-same :
      (p : PlannedOp) (d e : Contents) → d p.abs ≡ e p.abs → DeleteNeeds d p → DeleteNeeds e p
  DeleteNeeds-same p d e h n = λ w. (sym h ∙ (n w).0, (n w).1)

  passes-Reversible :
      (fs : Fs) (ps : List PlannedOp)
      → All (Matches fs) ps
      → Disjoint ps
      → Reversible (contents fs) (both_passes ps (contents fs)) (
          then_do
            (each (write_pass os steps) ps (record { fs = fs; undos = [] }))
            (each (delete_pass os steps) ps))
  passes-Reversible fs ps ms ds =
      let c = contents fs in
      let after = all_in write_in ps c in
      let ready =
        needs-Met write_in write_in-IsLocal WriteNeeds WriteNeeds-same ps c ds
          (All-map ps (λ p m w. m.found) ms) in
      let later = needs-Met delete_in delete_in-IsLocal DeleteNeeds DeleteNeeds-same ps after ds (
        All-zip ps
          (λ p m own w. (
            own ∙ ap (λ d. d p.abs) (write_in-delete p c w) ∙ m.found,
            m.skips ∙ ap (λ b. b && not p.existed) w,
          ))
          ms (all_in-own write_in write_in-IsLocal ps c ds)) in
      after_first os fresh steps c _ (each (delete_pass os steps) ps) (all_in delete_in ps)
        (Met delete_in delete_in-IsLocal DeleteNeeds DeleteNeeds-same ps) after later
        (each-Reversible os fresh steps c write_in write_in-IsLocal WriteNeeds WriteNeeds-same
          (write_pass os steps) (write_pass-Reversible os fresh steps c) ps _ ready refl)
        (each-Reversible os fresh steps c delete_in delete_in-IsLocal DeleteNeeds DeleteNeeds-same
          (delete_pass os steps) (delete_pass-Reversible os fresh steps c) ps)

  finish_failed :
      ((p : Str) → os.undone p ≡ true)
      → (ps : List PlannedOp) (a : Attempt) (c w : Contents) (e : WriteError) (fs : Fs)
      → Reversible c w a
      → finish os ps a ≡ (err e, fs)
      → contents fs ≡ c
  unfolding finish Reversible
  finish_failed undone ps (done s) c w e fs r h = absurd (cc h)
  finish_failed undone ps (failed x s) c w e fs r h =
      let same : rollback os s.undos s.fs ≡ fs = cc h in
      ap contents (sym same) ∙ rollback-contents os undone s.undos s.fs ∙ r

  finish_done :
      (ps : List PlannedOp) (a : Attempt) (c w : Contents) (b : Batch) (fs : Fs)
      → Reversible c w a
      → finish os ps a ≡ (ok b, fs)
      → (contents fs ≡ w) × (map change ps ≡ b.changes)
  unfolding finish Reversible
  finish_done ps (failed x s) c w b fs r h = absurd (cc h)
  finish_done ps (done s) c w b fs r h =
      (ap contents (sym (ap (λ x. x.1) h)) ∙ r.1, ap (λ x. changes_of x.0) h)

  plan_failed :
      ((p : Str) → os.undone p ≡ true)
      → (planned : Result WriteError (List PlannedOp)) (fs left : Fs) (e : WriteError)
      → ((ps : List PlannedOp) → planned ≡ ok ps → All (Matches fs) ps × Disjoint ps)
      → apply_plan os steps planned fs ≡ (err e, left)
      → contents left ≡ contents fs
  unfolding apply_plan apply_planned
  plan_failed undone (err x) fs left e k h = ap contents (sym (ap (λ x. x.1) h))
  plan_failed undone (ok ps) fs left e k h =
      let (ms, ds) = k ps refl in
      finish_failed undone ps _ (contents fs) _ e left (passes-Reversible fs ps ms ds) h

  plan_done :
      (planned : Result WriteError (List PlannedOp)) (fs left : Fs) (b : Batch)
      → ((ps : List PlannedOp) → planned ≡ ok ps → All (Matches fs) ps × Disjoint ps)
      → apply_plan os steps planned fs ≡ (ok b, left)
      → (ps : List PlannedOp) × (planned ≡ ok ps)
        × (contents left ≡ both_passes ps (contents fs))
        × (map change ps ≡ b.changes)
        × Disjoint ps
  unfolding apply_plan apply_planned
  plan_done (err x) fs left b k h = absurd (cc h)
  plan_done (ok ps) fs left b k h =
      let (ms, ds) = k ps refl in
      let (same, changed) =
        finish_done ps _ (contents fs) _ b left (passes-Reversible fs ps ms ds) h in
      (ps, refl, same, changed, ds)

  -- A batch that `Apply` refuses leaves every regular file with the contents it had, and makes
  -- none, whatever call failed, if `os.CreateTemp` picks an unused name and what undoes a call succeeds.
  pub apply_failed :
      (h : Host) (v : PathValidator) (ops : List FileOp) (fs left : Fs) (e : WriteError)
      → ((p : Str) → os.undone p ≡ true)
      → apply os h v steps ops fs ≡ (err e, left)
      → (q : Str) → contents left q ≡ contents fs q
  unfolding apply
  apply_failed h v ops fs left e undone r q =
      ap (λ c. c q)
        (plan_failed undone (plan os h v fs ops) fs left e (plan-Planned os h v fs ops) r)

  -- A batch that `Apply` accepts was planned without error; each target of the plan then holds what
  -- was asked of it, the new contents or nothing, every other file holds what it did, staging files
  -- leave no trace, and the changes reported are those a dry run reports. `os.CreateTemp` is to
  -- pick an unused name.
  pub apply_done :
      (h : Host) (v : PathValidator) (ops : List FileOp) (fs left : Fs) (b : Batch)
      → apply os h v steps ops fs ≡ (ok b, left)
      → (ps : List PlannedOp) × (plan os h v fs ops ≡ ok ps)
        × All (λ p. contents left p.abs ≡ wanted p) ps
        × ((q : Str) → Untouched q ps → contents left q ≡ contents fs q)
        × (dry_run os h v fs ops ≡ ok b.changes)
  unfolding apply dry_run
  apply_done h v ops fs left b r =
      let (ps, planned, same, changed, ds) =
        plan_done (plan os h v fs ops) fs left b (plan-Planned os h v fs ops) r in
      (
        ps,
        planned,
        All-map ps (λ p w. ap (λ c. c p.abs) same ∙ w) (both_passes-wanted ps (contents fs) ds),
        (λ q u. ap (λ c. c q) same ∙ both_passes-Untouched ps (contents fs) q u),
        rw planned (ap ok changed),
      )
