-- ===== src/Filewriter/Apply.antt =====
-- internal/filewriter/apply.go. Which system call of an operation fails, if one does, is an input,
-- a `Step` for each operation; the calls before it have their effect. The undo closures are data.
-- Removing a staging file after a failure is taken to succeed.
pub mod Effects
pub mod Passes
pub mod Writes
pub mod Loops
pub mod Atomic
pub mod Completes
use go_mcp_gateway.Common.{
  ℕ, Bool, true, false, not, ◌||◌, Option, none, some, if◌then◌else◌, List, [], ◌∷◌, reverse, map,
  take,
}
use go_mcp_gateway.Common.Text.{Str}
use go_mcp_gateway.Filewriter.Types.{
  Change, io_error, WriteError, Result, ok, err, ◌>>=◌, FileOp, OpKind, write, create, modify,
  delete,
}
use go_mcp_gateway.Filewriter.FilePath.{render, elements}
use go_mcp_gateway.Filewriter.PathSafe.{Host, PathValidator}
use go_mcp_gateway.Filewriter.Files.{
  Node, regular, Fs, Os, put, remove, write_file, rename, make_dirs,
}
use go_mcp_gateway.Filewriter.Writer.{PlannedOp, plan, change, missing_dirs, is_delete}

-- The first thing to fail: the context, `os.MkdirAll` after some directories, creating, filling,
-- chmodding or closing the staging file, or the last call, the rename or the removal.
pub data Step : Type 0 where
  cancelled create_failed fill_failed chmod_failed close_failed last_failed completes : Step
  mkdir_failed : ℕ → Step

pub data Undo : Type 0 where
  remove_dirs : List Str → Undo
  restore : Str → Str → ℕ → Undo
  discard : Str → Undo

-- The files, and the undos with the last one registered first.
pub record State : Type 0 where
  pub fs : Fs
  pub undos : List Undo

pub data Attempt : Type 0 where
  done : State → Attempt
  failed : WriteError → State → Attempt

abbrev pub failing : PlannedOp → State → Attempt
failing p s = failed (record { reason = io_error; path = p.rel }) s

unfoldable pub remove_all : Os → List Str → Fs → Fs
remove_all os [] fs = fs
remove_all os (d ∷ ds) fs = remove_all os ds (if os.undone d then remove os d fs else fs)

-- One undo closure; a call that fails leaves the files as they are.
unfoldable pub undo : Os → Undo → Fs → Fs
unfolding remove_all
undo os (remove_dirs created) fs = remove_all os (reverse created) fs
undo os (restore abs prior mode) fs = if os.undone abs then write_file os abs prior mode fs else fs
undo os (discard abs) fs = if os.undone abs then remove os abs fs else fs

unfoldable pub rollback : Os → List Undo → Fs → Fs
rollback os [] fs = fs
rollback os (u ∷ us) fs = rollback os us (undo os u fs)

abbrev pub undo_of : PlannedOp → Undo
undo_of p = if p.existed then restore p.abs p.before p.mode else discard p.abs

abbrev pub dir_undos : List Str → List Undo → List Undo
dir_undos [] us = us
dir_undos (d ∷ ds) us = remove_dirs (reverse (d ∷ ds)) ∷ us

-- `filepath.Dir`, as elements with the last one first.
abbrev pub parent : Str → List Str
parent abs = elim (elements true abs) [ [] ↦ [] | _ ∷ es ↦ es ]

-- From the staging file on, in a directory that stands. 384 is 0o600.
unfoldable pub stage : Os → Step → PlannedOp → Str → State → Attempt
stage os cancelled p temp s = failing p s
stage os (mkdir_failed n) p temp s = failing p s
stage os create_failed p temp s = failing p s
stage os fill_failed p temp s =
    failing p (record { fs = remove os temp (put temp (regular [] 384) s.fs); undos = s.undos })
stage os chmod_failed p temp s =
    failing p
      (record { fs = remove os temp (put temp (regular p.content 384) s.fs); undos = s.undos })
stage os close_failed p temp s =
    failing p
      (record { fs = remove os temp (put temp (regular p.content p.mode) s.fs); undos = s.undos })
stage os last_failed p temp s =
    failing p
      (record { fs = remove os temp (put temp (regular p.content p.mode) s.fs); undos = s.undos })
stage os completes p temp s = done (record {
  fs = rename temp p.abs (put temp (regular p.content p.mode) s.fs);
  undos = undo_of p ∷ s.undos;
})

abbrev pub mkdir_stop : Step → Option ℕ
mkdir_stop (mkdir_failed n) = some n
mkdir_stop _ = none

abbrev pub is_cancelled : Step → Bool
is_cancelled cancelled = true
is_cancelled _ = false

-- From `os.CreateTemp` on, which may find no name.
unfoldable pub stage_in : Os → Option Str → Step → PlannedOp → State → Attempt
unfolding stage
stage_in os none step p s = failing p s
stage_in os (some temp) step p s = stage os step p temp s

-- `applyWrite` once the missing directories are known, deepest first: stopped while it makes them,
-- or past them.
unfoldable pub make_and_stage : Os → Option ℕ → Step → PlannedOp → List Str → State → Attempt
unfolding stage_in
make_and_stage os (some n) step p missing s =
    failing p (record { fs = make_dirs (take n (reverse missing)) s.fs; undos = s.undos })
make_and_stage os none step p missing s =
    let made = make_dirs (reverse missing) s.fs in
    stage_in os (os.temp_name made (render true (reverse (parent p.abs)))) step p
      (record { fs = made; undos = dir_undos missing s.undos })

unfoldable pub apply_write : Os → Step → PlannedOp → State → Attempt
unfolding make_and_stage
apply_write os step p s = elim (missing_dirs os s.fs (parent p.abs)) [
  | none ↦ failing p s
  | some missing ↦ make_and_stage os (mkdir_stop step) step p missing s
]

abbrev pub fails : Step → Bool
fails completes = false
fails _ = true

unfoldable pub apply_delete : Os → Step → PlannedOp → State → Attempt
apply_delete os step p s =
    if fails step
    then failing p s
    else done
        (record { fs = remove os p.abs s.fs; undos = restore p.abs p.before p.mode ∷ s.undos })

-- The two loops: the writes, and the deletes that are not skipped.
unfoldable pub write_pass : Os → (Str → Step) → PlannedOp → State → Attempt
unfolding apply_write
write_pass os steps p s =
    if is_delete p.operation
    then done s
    else if is_cancelled (steps p.abs)
    then failing p s
    else apply_write os (steps p.abs) p s

unfoldable pub delete_pass : Os → (Str → Step) → PlannedOp → State → Attempt
unfolding apply_delete
delete_pass os steps p s =
    if not (is_delete p.operation) || p.skipped
    then done s
    else if is_cancelled (steps p.abs)
    then failing p s
    else apply_delete os (steps p.abs) p s

abbrev pub then_do : Attempt → (State → Attempt) → Attempt
then_do (done s) f = f s
then_do (failed e s) f = failed e s

unfoldable pub each : (PlannedOp → State → Attempt) → List PlannedOp → State → Attempt
each f [] s = done s
each f (p ∷ ps) s = then_do (f p s) (each f ps)

pub record BatchEntry : Type 0 where
  pub change : Change
  pub before : Str
  pub after : Str
  pub existed : Bool

pub record Batch : Type 0 where
  pub changes : List Change
  pub entries : List BatchEntry

abbrev entry : PlannedOp → BatchEntry
entry p = record { change = change p; before = p.before; after = p.content; existed = p.existed }

unfoldable pub finish : Os → List PlannedOp → Attempt → Result WriteError Batch × Fs
unfolding rollback change
finish os planned (done s) =
    (ok (record { changes = map change planned; entries = map entry planned }), s.fs)
finish os planned (failed e s) = (err e, rollback os s.undos s.fs)

unfoldable pub apply_planned :
    Os → (Str → Step) → List PlannedOp → Fs → Result WriteError Batch × Fs
unfolding each write_pass delete_pass finish
apply_planned os steps planned fs = finish os planned (
    then_do (each (write_pass os steps) planned (record { fs = fs; undos = [] }))
      (each (delete_pass os steps) planned))

unfoldable pub apply_plan :
    Os → (Str → Step) → Result WriteError (List PlannedOp) → Fs → Result WriteError Batch × Fs
unfolding apply_planned
apply_plan os steps (err e) fs = (err e, fs)
apply_plan os steps (ok planned) fs = apply_planned os steps planned fs

-- `Apply`: the batch or the error, and the files it leaves.
unfoldable pub apply :
    Os → Host → PathValidator → (Str → Step) → List FileOp → Fs → Result WriteError Batch × Fs
unfolding plan apply_plan
apply os h v steps ops fs = apply_plan os steps (plan os h v fs ops) fs
