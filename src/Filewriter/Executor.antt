-- ===== src/Filewriter/Executor.antt =====
-- internal/filewriter/executor.go. What is injected into the executor is a parameter: the model
-- (`Generate`), by the number of the call, the prompts and the next tier. A context that is
-- cancelled is one that is so before a given call. Metrics are a list of events, the last one first.
pub mod Stops
pub mod Refuses
use go_mcp_gateway.Common.{
  ℕ, zero, suc, Bool, true, false, Option, none, some, if◌then◌else◌, List, [], ◌∷◌, String,
}
use go_mcp_gateway.Common.Text.{Str}
use go_mcp_gateway.Filewriter.Types.{
  OpKind, FileOp, Change, ParseReason, ParseError, WriteReason, WriteError, Result, ok, err,
}
use go_mcp_gateway.Filewriter.Parser.{parse}
use go_mcp_gateway.Filewriter.PathSafe.{Host, PathValidator}
use go_mcp_gateway.Filewriter.Files.{Fs, Os}
use go_mcp_gateway.Filewriter.Apply.{Step, Batch, apply}

pub data PromptVariant : Type 0 where
  standard strict : PromptVariant

pub record Input : Type 0 where
  pub task : Str
  pub complexity : String
  pub tier : String
  pub graft_ctx : Str

pub data Cause : Type 0 where
  context_done model_failed : Cause
  not_written : WriteError → Cause
  parse_exhausted : Option ParseError → Cause

-- `RunResult` is `Result` of executor.go.
pub record RunResult : Type 0 where
  pub content : Str
  pub tier : String
  pub attempts : ℕ
  pub changes : List Change

pub data RunReason : Type 0 where
  parse_failed write_failed generate_failed : RunReason

pub record RunError : Type 0 where
  pub reason : RunReason
  pub attempts : ℕ
  pub tier : String
  pub cause : Cause

pub data Event : Type 0 where
  files_written : String → String → OpKind → Event
  write_failure : WriteReason → Event
  parse_failure : ParseReason → String → Event
  phantom_delete : String → Event
  span_file_written : Str → OpKind → ℕ → Event

pub record Executor : Type 0 where
  pub os : Os
  pub host : Host
  pub validator : PathValidator
  pub steps : Str → Step
  pub render : PromptVariant → String → Input → Str × Str
  pub generate : ℕ → String → Str → Str → Option Str
  pub next_tier : String → Option String
  pub cancelled : ℕ → Bool

pub record Rung : Type 0 where
  pub tier : String
  pub variant : PromptVariant

unfoldable pub ladder : (String → Option String) → String → List Rung
ladder next_tier tier =
    record { tier = tier; variant = standard }
    ∷ record { tier = tier; variant = strict }
    ∷ elim (next_tier tier) [
      | none ↦ []
      | some next ↦ record { tier = next; variant = strict } ∷ []
    ]

unfoldable pub record_changes : String → String → List Change → List Event → List Event
record_changes tier complexity [] events = events
record_changes tier complexity (c ∷ cs) events = record_changes tier complexity cs (
    if c.skipped
    then phantom_delete tier ∷ events
    else span_file_written c.path c.operation c.bytes
      ∷ files_written tier complexity c.operation
      ∷ events)

-- How a run ends, the files it leaves, and the events.
pub record Report : Type 0 where
  pub answer : Result RunError RunResult
  pub files : Fs
  pub events : List Event

abbrev stop : RunReason → ℕ → String → Cause → Fs → List Event → Report
stop reason attempts tier cause fs events = record {
  answer = err (record { reason = reason; attempts = attempts; tier = tier; cause = cause });
  files = fs;
  events = events;
}

-- The output of a model, parsed, then applied.
unfoldable pub applied : Input → Rung → ℕ → Str → Result WriteError Batch × Fs → List Event → Report
unfolding record_changes
applied input r attempts out (err e, fs) events =
    stop write_failed attempts r.tier (not_written e) fs (write_failure e.reason ∷ events)
applied input r attempts out (ok batch, fs) events = record {
  answer =
      ok (record { content = out; tier = r.tier; attempts = attempts; changes = batch.changes });
  files = fs;
  events = record_changes r.tier input.complexity batch.changes events;
}

abbrev pub output : Executor → Input → ℕ → Rung → Option Str
output x input n r =
    x.generate n r.tier (x.render r.variant r.tier input).0 (x.render r.variant r.tier input).1

-- The loop of `Run`, with the calls made, the last tier, the last parse error and the events.
unfoldable pub climb :
    Executor → Input → List Rung → ℕ → String → Option ParseError → Fs → List Event → Report
unfolding applied
climb x input [] n last_tier last_parse fs events =
    stop parse_failed n last_tier (parse_exhausted last_parse) fs events
climb x input (r ∷ rs) n last_tier last_parse fs events =
    if x.cancelled n
    then stop generate_failed n last_tier context_done fs events
    else elim (output x input (suc n) r) [
      | none ↦ stop generate_failed (suc n) r.tier model_failed fs events
      | some out ↦ elim (parse out) [
        | err e ↦
            climb x input rs (suc n) r.tier (some e) fs (parse_failure e.reason r.tier ∷ events)
        | ok ops ↦ applied input r (suc n) out (apply x.os x.host x.validator x.steps ops fs) events
      ]
    ]

unfoldable pub run : Executor → Input → Fs → Report
unfolding ladder climb
run x input fs = climb x input (ladder x.next_tier input.tier) zero input.tier none fs []
