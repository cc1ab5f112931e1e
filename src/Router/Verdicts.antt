-- ===== src/Router/Verdicts.antt =====
-- What the verdicts of `Interpret` (internal/router) promise to the workflow.
use go_mcp_gateway.Common.{
  ◌⊎◌, ◌≡◌, ◌≢◌, refl, List, [], ◌∷◌, ◌++◌, true, false, arith, All, All-append, Bool-cases, inl,
  inr, ◌&&◌, not,
}
use go_mcp_gateway.Common.Text.{Str, split, trim_space, is_empty, to_lower}
use go_mcp_gateway.Router.{ok}
use go_mcp_gateway.Router.Interpret.{
  Status, pass, fail, inconclusive, NextAction, merge, retry, escalate, QaVerdict, is_failure_line,
  collect_failures, extract_failures, interpret_output, interpret, says_passed, says_failed,
}

-- A line stands in a list of lines.
pub data In (line : Str) : List Str → Type 0 where
  here : {ls : List Str} → In line (line ∷ ls)
  there : {m : Str} {ls : List Str} → In line ls → In line (m ∷ ls)

-- A failure is a trimmed, non-empty line of the output that carries a failure mark.
pub record Reported (lines : List Str) (failure : Str) : Type 0 where
  pub line : Str
  pub from_output : In line lines
  pub trimmed : failure ≡ trim_space line
  pub marked : is_failure_line line ≡ true
  pub not_empty : failure ≢ []

ne-nil_of_not_empty : (s : Str) → is_empty s ≡ false → s ≢ []
ne-nil_of_not_empty [] h e = cc
ne-nil_of_not_empty (c ∷ s) h e = cc

collect-Reported :
    (all lines found : List Str)
    → ((line : Str) → In line lines → In line all)
    → All (Reported all) found
    → All (Reported all) (collect_failures found lines)
unfolding collect_failures
collect-Reported all [] found sub h = h
collect-Reported all (line ∷ lines) found sub h =
    elim (Bool-cases (is_failure_line line && not (is_empty (trim_space line)))) [
      | inl e ↦ rw e (
          collect-Reported all lines (found ++ trim_space line ∷ []) (λ l i. sub l (there i))
            (All-append (Reported all) found (trim_space line ∷ []) h (this e, tt)))
      | inr e ↦ rw e (collect-Reported all lines found (λ l i. sub l (there i)) h)
    ]
  where
    this :
        (is_failure_line line && not (is_empty (trim_space line))) ≡ true
        → Reported all (trim_space line)
    this e = record {
      line = line;
      from_output = sub line here;
      trimmed = refl;
      marked = ground arith;
      not_empty = ne-nil_of_not_empty (trim_space line) (ground arith);
    }

abbrev pub action_of : Status → NextAction
action_of pass = merge
action_of fail = retry
action_of inconclusive = escalate

record WellFormed (out : Str) (v : QaVerdict) : Type 0 where
  action : v.next_action ≡ action_of v.status
  reported : All (Reported (split b'\n' out)) v.failures
  only_fail : (v.status ≡ fail) ⊎ (v.failures ≡ [])

interpret_output-WellFormed :
    (out diff : Str) (scenarios : List Str) → WellFormed out (interpret_output out diff scenarios)
unfolding interpret_output extract_failures
interpret_output-WellFormed out diff scenarios = elim (Bool-cases (says_passed (to_lower out))) [
  | inl p ↦ rw p (record { action = refl; reported = tt; only_fail = inr refl })
  | inr np ↦ elim (Bool-cases (says_failed (to_lower out))) [
    | inl f ↦
        rw (np, f)
          (record {
            action = refl;
            reported = collect-Reported _ (split b'\n' out) [] (λ _ i. i) tt;
            only_fail = inl refl;
          })
    | inr nf ↦ rw (np, nf) (record { action = refl; reported = tt; only_fail = inr refl })
  ]
]

-- `Interpret` returns a verdict for any output, with the action that belongs to its status. Every
-- failure in it is a trimmed, non-empty line of the output with a failure mark, and a verdict that
-- is not a failure lists none.
pub interpret_verdict :
    (vitest_output diff : Str) (scenarios : List Str)
    → (v : QaVerdict) × (interpret vitest_output diff scenarios ≡ ok v)
      × (v.next_action ≡ action_of v.status)
      × All (Reported (split b'\n' vitest_output)) v.failures
      × ((v.status ≡ fail) ⊎ (v.failures ≡ []))
unfolding interpret
interpret_verdict out diff scenarios =
    let h = interpret_output-WellFormed out diff scenarios in
    (interpret_output out diff scenarios, refl, h.action, h.reported, h.only_fail)
