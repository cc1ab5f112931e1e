-- ===== src/Router/Interpret.antt =====
-- `interpretOutput` and `extractFailures` of internal/router/classify.go, and `Interpret` of
-- router.go.
use go_mcp_gateway.Common.{List, [], ◌∷◌, ◌++◌, Bool, ◌||◌, ◌&&◌, not, if◌then◌else◌}
use go_mcp_gateway.Common.Text.{Str, codes, contains, to_lower, trim_space, split, is_empty}
use go_mcp_gateway.Router.{Result, ok}

pub data Status : Type 0 where
  pass fail inconclusive : Status

pub data NextAction : Type 0 where
  merge retry escalate : NextAction

pub record QaVerdict : Type 0 where
  pub task_id : Str
  pub status : Status
  pub failures : List Str
  pub hint : Str
  pub next_action : NextAction

-- "× " in UTF-8.
abbrev cross_mark : Str
cross_mark = 0xc3 ∷ 0x97 ∷ b' ' ∷ []

unfoldable pub is_failure_line : Str → Bool
is_failure_line line =
    let lower = to_lower line in
    contains lower cross_mark || contains lower (codes "fail") || contains lower (codes "error:")

-- The loop over the lines, from the failures found so far.
unfoldable pub collect_failures : List Str → List Str → List Str
collect_failures failures [] = failures
collect_failures failures (line ∷ lines) =
    collect_failures
      (if is_failure_line line && not (is_empty (trim_space line))
        then failures ++ trim_space line ∷ []
        else failures)
      lines

unfoldable pub extract_failures : Str → List Str
extract_failures output = collect_failures [] (split b'\n' output)

abbrev verdict : Status → List Str → NextAction → QaVerdict
verdict s fs a = record { task_id = []; status = s; failures = fs; hint = []; next_action = a }

-- The explicit pass signal, with the precedence of `&&` over `||`.
unfoldable pub says_passed : Str → Bool
says_passed lower =
    contains lower (codes "all tests passed")
    || (contains lower (codes "tests passed") && not (contains lower (codes "failed")))

unfoldable pub says_failed : Str → Bool
says_failed lower = contains lower (codes "failed") || contains lower (codes "error")

unfoldable pub interpret_output : Str → Str → List Str → QaVerdict
interpret_output vitest_output diff scenarios =
    if says_passed (to_lower vitest_output)
    then verdict pass [] merge
    else if says_failed (to_lower vitest_output)
    then verdict fail (extract_failures vitest_output) retry
    else verdict inconclusive [] escalate

unfoldable pub interpret : Str → Str → List Str → Result QaVerdict
unfolding interpret_output
interpret vitest_output diff scenarios = ok (interpret_output vitest_output diff scenarios)
