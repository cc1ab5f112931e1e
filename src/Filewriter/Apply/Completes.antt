-- ===== src/Filewriter/Apply/Completes.antt =====
-- `Apply` of internal/filewriter/apply.go where no system call fails.
use go_mcp_gateway.Common.{◌≡◌, true, false, some, ◌⊎◌}
use go_mcp_gateway.Common.Text.{Str}
use go_mcp_gateway.Filewriter.Files.{Fs, Os}
use go_mcp_gateway.Filewriter.Writer.{PlannedOp, is_delete}
use go_mcp_gateway.Filewriter.Apply.{Step, completes, State, Attempt, done}

IsDone : Attempt → Type 0
IsDone a = (s : State) × (a ≡ done s)

module _ (os : Os) (inspectable : (p : Str) → os.uninspectable p ≡ false)
    (named : (fs : Fs) (d : Str) → (t : Str) × (os.temp_name fs d ≡ some t)) where
  -- Nothing is to be done for the operation, or its step goes through.
  abbrev pub GoesThrough : (Str → Step) → PlannedOp → Type 0
  GoesThrough steps p =
      ((is_delete p.operation ≡ true) × (p.skipped ≡ true)) ⊎ (steps p.abs ≡ completes)
