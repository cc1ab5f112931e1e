-- ===== src/Tests/Apply.antt =====
-- `Apply` and `Run` of internal/filewriter on concrete inputs.
use go_mcp_gateway.Filewriter.Parser.{
  classify_info, closes, collect_lines, collect_body, skip_to_close, is_seen, info_of, scan, parse,
}
use go_mcp_gateway.Filewriter.PathSafe.{
  default_binary_extensions, add_extensions, extension_set, is_binary, escapes, relative,
  contains_path, probe, rejoin, resolve_within, check_name, resolve,
}
use go_mcp_gateway.Filewriter.FilePath.{
  is_abs, go_up, add_element, add_elements, elements, render, clean, join_path, ups, rel_elements,
  rel, last_element, from_dot, ext,
}
use go_mcp_gateway.Common.{
  ◌≤◌, ◌≡◌, refl, none, some, Bool, true, false, if◌then◌else◌, List, [], ◌∷◌, All, ◌==◌, ap,
  Bool-cases, inl, Option, subst, inr,
}
use go_mcp_gateway.Common.Text.{
  Str, codes, str_eq, to_lower_byte, to_lower, trim_left, trim_right, trim_space, has_prefix,
  trim_prefix, contains, split, join,
}
use go_mcp_gateway.Filewriter.Types.{ok, err, WriteError, io_error, create, Change}
use go_mcp_gateway.Filewriter.Files.{
  special, Fs, Os, Node, nothing, directory, regular, contents, remove, write_file, rename,
  make_dirs,
}
use go_mcp_gateway.Filewriter.Writer.{
  PlannedOp, plan, dry_run, default_file_mode, inspect, classified, plan_all, change, missing_dirs,
}
use go_mcp_gateway.Filewriter.Writer.Planned.{Matches, Disjoint, plan-Planned}
use go_mcp_gateway.Filewriter.Apply.{
  Step, completes, last_failed, Batch, apply, remove_all, undo, rollback, stage, stage_in,
  make_and_stage, apply_write, apply_delete, write_pass, delete_pass, each, finish, apply_planned,
  apply_plan,
}
use go_mcp_gateway.Filewriter.Apply.Passes.{Untouched, wanted}
use go_mcp_gateway.Filewriter.Apply.Atomic.{apply_failed, apply_done}
use go_mcp_gateway.Filewriter.Executor.{
  Executor, Input, RunError, RunResult, ladder, run, write_failed, not_written, record_changes,
  applied, climb,
}
use go_mcp_gateway.Filewriter.Executor.Stops.{Accepted, run-Accepted}
use go_mcp_gateway.Filewriter.Executor.Refuses.{Refused, run-Refused}
use go_mcp_gateway.Tests.Filewriter.{answer, op, host, validator}

-- Only the worktree's root and `/` exist.
abbrev files : Fs
files = λ p.
    if str_eq p (codes "/w") then directory else if str_eq p (codes "/") then directory else nothing

abbrev is_nothing : Node → Bool
is_nothing nothing = true
is_nothing directory = false
is_nothing special = false
is_nothing (regular body mode) = false

-- One name for a staging file, if it is free; a call made to undo always succeeds.
abbrev os : Os
os = record {
  uninspectable = λ p. false;
  unreadable = λ p. false;
  temp_name =
      λ fs d. if is_nothing (fs (codes "/w/.gw-tmp-0")) then some (codes "/w/.gw-tmp-0") else none;
  is_empty_dir = λ fs p. true;
  masked = λ m. m;
  undone = λ p. true;
}

is_nothing-nothing : (n : Node) → is_nothing n ≡ true → n ≡ nothing
is_nothing-nothing nothing h = refl
is_nothing-nothing directory h = absurd (cc h)
is_nothing-nothing special h = absurd (cc h)
is_nothing-nothing (regular body mode) h = absurd (cc h)

fresh : (fs : Fs) (d t : Str) → os.temp_name fs d ≡ some t → fs t ≡ nothing
fresh fs d t h = elim (Bool-cases (is_nothing (fs (codes "/w/.gw-tmp-0")))) [
  | inl e ↦
      let same : ◌≡◌ {A = Option Str} (some (codes "/w/.gw-tmp-0")) (some t) = rw e at h in
      subst (λ q. fs q ≡ nothing) (cc same) (is_nothing-nothing _ e)
  | inr e ↦ absurd (cc (rw e at h))
]

undone : (p : Str) → os.undone p ≡ true
undone p = refl

abbrev planned : PlannedOp
planned = record {
  rel = codes "a.go";
  abs = codes "/w/a.go";
  operation = create;
  content = codes "x";
  mode = 420;
  skipped = false;
  before = [];
  existed = false;
}

is_planned : plan os host validator files (op ∷ []) ≡ ok (planned ∷ [])
unfolding str_eq to_lower_byte to_lower trim_left trim_right trim_space has_prefix trim_prefix
    contains split join is_abs go_up add_element add_elements elements render clean join_path ups
    rel_elements rel last_element from_dot ext default_binary_extensions add_extensions
    extension_set is_binary escapes relative contains_path probe rejoin resolve_within check_name
    resolve is_seen default_file_mode inspect classified plan_all plan change dry_run missing_dirs
is_planned = refl

plan-Planned_example : All (Matches files) (planned ∷ []) × Disjoint (planned ∷ [])
plan-Planned_example = plan-Planned os host validator files (op ∷ []) (planned ∷ []) is_planned

abbrev all_done : Str → Step
all_done = λ p. completes

abbrev none_done : Str → Step
none_done = λ p. last_failed

abbrev created : Change
created = record { path = codes "a.go"; operation = create; bytes = 1; skipped = false }

abbrev batch : Batch
batch = record {
  changes = created ∷ [];
  entries = record { change = created; before = []; after = codes "x"; existed = false } ∷ [];
}

abbrev after : Fs
after = (apply os host validator all_done (op ∷ []) files).1

applies : (apply os host validator all_done (op ∷ []) files).0 ≡ ok batch
unfolding str_eq to_lower_byte to_lower trim_left trim_right trim_space has_prefix trim_prefix
    contains split join is_abs go_up add_element add_elements elements render clean join_path ups
    rel_elements rel last_element from_dot ext default_binary_extensions add_extensions
    extension_set is_binary escapes relative contains_path probe rejoin resolve_within check_name
    resolve is_seen default_file_mode inspect classified plan_all plan change dry_run missing_dirs
    remove write_file rename make_dirs remove_all undo rollback stage stage_in make_and_stage
    apply_write apply_delete write_pass delete_pass each finish apply_planned apply_plan apply
applies = refl

apply_done_example :
    (ps : List PlannedOp) × (plan os host validator files (op ∷ []) ≡ ok ps)
    × All (λ p. contents after p.abs ≡ wanted p) ps
    × ((q : Str) → Untouched q ps → contents after q ≡ contents files q)
    × (dry_run os host validator files (op ∷ []) ≡ ok (created ∷ []))
apply_done_example =
    apply_done os fresh all_done host validator (op ∷ []) files after batch
      (ap (λ r. (r, after)) applies)

abbrev failure : WriteError
failure = record { reason = io_error; path = codes "a.go" }

abbrev back : Fs
back = (apply os host validator none_done (op ∷ []) files).1

fails : (apply os host validator none_done (op ∷ []) files).0 ≡ err failure
unfolding str_eq to_lower_byte to_lower trim_left trim_right trim_space has_prefix trim_prefix
    contains split join is_abs go_up add_element add_elements elements render clean join_path ups
    rel_elements rel last_element from_dot ext default_binary_extensions add_extensions
    extension_set is_binary escapes relative contains_path probe rejoin resolve_within check_name
    resolve is_seen default_file_mode inspect classified plan_all plan change dry_run missing_dirs
    remove write_file rename make_dirs remove_all undo rollback stage stage_in make_and_stage
    apply_write apply_delete write_pass delete_pass each finish apply_planned apply_plan apply
fails = refl

apply_failed_example : contents back (codes "/w/a.go") ≡ contents files (codes "/w/a.go")
apply_failed_example =
    apply_failed os fresh none_done host validator (op ∷ []) files back failure undone
      (ap (λ r. (r, back)) fails) (codes "/w/a.go")

-- A model that answers the first call with prose, and the next with a file.
abbrev executor : Executor
executor = record {
  os = os;
  host = host;
  validator = validator;
  steps = all_done;
  render = λ variant tier input. ([], input.task);
  generate = λ n tier system user. if n == 1 then some (codes "sorry") else some answer;
  next_tier = λ tier. none;
  cancelled = λ n. false;
}

abbrev input : Input
input = record {
  task = codes "add a";
  complexity = "scaffold";
  tier = "local_qwen";
  graft_ctx = [];
}

abbrev accepted : RunResult
accepted = record { content = answer; tier = "local_qwen"; attempts = 2; changes = created ∷ [] }

runs : (run executor input files).answer ≡ ok accepted
unfolding str_eq to_lower_byte to_lower trim_left trim_right trim_space has_prefix trim_prefix
    contains split join is_abs go_up add_element add_elements elements render clean join_path ups
    rel_elements rel last_element from_dot ext default_binary_extensions add_extensions
    extension_set is_binary escapes relative contains_path probe rejoin resolve_within check_name
    resolve is_seen default_file_mode inspect classified plan_all plan change dry_run missing_dirs
    remove write_file rename make_dirs remove_all undo rollback stage stage_in make_and_stage
    apply_write apply_delete write_pass delete_pass each finish apply_planned apply_plan apply
    classify_info closes collect_lines collect_body skip_to_close info_of scan parse ladder
    record_changes applied climb run
runs = refl

run-Accepted_example :
    (2 ≤ 3)
    × Accepted executor input
        (ladder executor.next_tier "local_qwen")
        0
        files
        accepted
        (run executor input files).files
run-Accepted_example = run-Accepted executor input files accepted runs

-- The same model under an operating system that refuses the rename.
abbrev broken : Executor
broken = record executor { steps = none_done }

abbrev refusal : RunError
refusal = record {
  reason = write_failed;
  attempts = 2;
  tier = "local_qwen";
  cause = not_written failure;
}

refuses : (run broken input files).answer ≡ err refusal
unfolding str_eq to_lower_byte to_lower trim_left trim_right trim_space has_prefix trim_prefix
    contains split join is_abs go_up add_element add_elements elements render clean join_path ups
    rel_elements rel last_element from_dot ext default_binary_extensions add_extensions
    extension_set is_binary escapes relative contains_path probe rejoin resolve_within check_name
    resolve is_seen default_file_mode inspect classified plan_all plan change dry_run missing_dirs
    remove write_file rename make_dirs remove_all undo rollback stage stage_in make_and_stage
    apply_write apply_delete write_pass delete_pass each finish apply_planned apply_plan apply
    classify_info closes collect_lines collect_body skip_to_close info_of scan parse ladder
    record_changes applied climb run
refuses = refl

run-Refused_example :
    Refused broken input
      (ladder broken.next_tier "local_qwen")
      0
      files
      refusal
      (run broken input files).files
run-Refused_example = run-Refused broken input files refusal fresh undone refuses

-- An operating system that hands out one name without looking.
abbrev bold : Os
bold = record os { temp_name = λ fs d. some (codes "/w/.gw-tmp-0") }
