-- ===== src/Filewriter/Writer.antt =====
-- internal/filewriter/writer.go: the plan of a batch, its dry run, and the directories to create.
pub mod Planned
use go_mcp_gateway.Common.{
  ℕ, Bool, true, false, not, Option, none, some, if◌then◌else◌, List, [], ◌∷◌, reverse, map, length,
}
use go_mcp_gateway.Common.Text.{Str, str_eq}
use go_mcp_gateway.Filewriter.Types.{
  OpKind, write, create, modify, delete, FileOp, Change, WriteReason, duplicate_target, io_error,
  not_regular_file, WriteError, Result, ok, err, ◌>>=◌,
}
use go_mcp_gateway.Filewriter.FilePath.{render}
use go_mcp_gateway.Filewriter.Parser.{is_seen}
use go_mcp_gateway.Filewriter.PathSafe.{Host, PathValidator, resolve}
use go_mcp_gateway.Filewriter.Files.{Node, nothing, directory, special, regular, Fs, Os}

-- 0o644.
unfoldable pub default_file_mode : ℕ
default_file_mode = 420

pub record PlannedOp : Type 0 where
  pub rel : Str
  pub abs : Str
  pub operation : OpKind
  pub content : Str
  pub mode : ℕ
  pub skipped : Bool
  pub before : Str
  pub existed : Bool

abbrev pub refuse {ℓ} : {A : Type ℓ} → WriteReason → Str → Result WriteError A
refuse reason path = err (record { reason = reason; path = path })

-- What the target holds: its mode and its content, if it exists.
unfoldable pub inspect : Os → Fs → Str → Str → Result WriteError (Option (ℕ × Str))
inspect os fs rel abs = if os.uninspectable abs then refuse io_error rel else elim (fs abs) [
  | nothing ↦ ok none
  | directory ↦ refuse not_regular_file rel
  | special ↦ refuse not_regular_file rel
  | regular body mode ↦ (if os.unreadable abs then refuse io_error rel else ok (some (mode, body)))
]

abbrev pub is_delete : OpKind → Bool
is_delete delete = true
is_delete write = false
is_delete create = false
is_delete modify = false

abbrev pub planned_as : OpKind → Bool → OpKind
planned_as kind exists = if is_delete kind then delete else if exists then modify else create

-- One operation, classified by what its target holds.
unfoldable pub classified : FileOp → Str → Str → Option (ℕ × Str) → PlannedOp
unfolding default_file_mode
classified op rel abs none = record {
  rel = rel;
  abs = abs;
  operation = planned_as op.kind false;
  content = if is_delete op.kind then [] else op.content;
  mode = default_file_mode;
  skipped = is_delete op.kind;
  before = [];
  existed = false;
}
classified op rel abs (some (mode, body)) = record {
  rel = rel;
  abs = abs;
  operation = planned_as op.kind true;
  content = if is_delete op.kind then [] else op.content;
  mode = mode;
  skipped = false;
  before = body;
  existed = true;
}

abbrev claim : Bool → Str → Result WriteError Bool
claim true rel = refuse duplicate_target rel
claim false rel = ok true

-- The loop of `plan`, with the targets claimed so far.
unfoldable pub plan_all :
    Os → Host → PathValidator → Fs → List Str → List FileOp → Result WriteError (List PlannedOp)
unfolding inspect classified
plan_all os h v fs claimed [] = ok []
plan_all os h v fs claimed (op ∷ ops) = resolve v h op.path >>= λ target.
    claim (is_seen target.1 claimed) target.0 >>= λ new.
    inspect os fs target.0 target.1 >>= λ found.
    plan_all os h v fs (target.1 ∷ claimed) ops >>= λ rest.
    ok (classified op target.0 target.1 found ∷ rest)

unfoldable pub plan :
    Os → Host → PathValidator → Fs → List FileOp → Result WriteError (List PlannedOp)
unfolding plan_all
plan os h v fs ops = plan_all os h v fs [] ops

unfoldable pub change : PlannedOp → Change
change p = record {
  path = p.rel;
  operation = p.operation;
  bytes = if is_delete p.operation then 0 else length p.content;
  skipped = p.skipped;
}

unfoldable pub dry_run :
    Os → Host → PathValidator → Fs → List FileOp → Result WriteError (List Change)
unfolding plan change
dry_run os h v fs ops = plan os h v fs ops >>= λ planned. ok (map change planned)

-- One turn of the probing loop: the directory is added to those above it only if it is missing.
abbrev pub extend : Node → Str → Option (List Str) → Option (List Str)
extend nothing d none = none
extend nothing d (some above) = some (d ∷ above)
extend directory d above = some []
extend special d above = some []
extend (regular body mode) d above = some []

-- The directories that are missing on the way to the one with these elements, last element first;
-- deepest first. `none` if one cannot be inspected.
unfoldable pub missing_dirs : Os → Fs → List Str → Option (List Str)
missing_dirs os fs [] = extend (fs (render true [])) (render true []) (some [])
missing_dirs os fs (e ∷ es) =
    let d = render true (reverse (e ∷ es)) in
    let above = missing_dirs os fs es in if os.uninspectable d then none else extend (fs d) d above
