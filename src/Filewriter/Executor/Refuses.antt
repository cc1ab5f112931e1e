-- ===== src/Filewriter/Executor/Refuses.antt =====
-- What a refused run of internal/filewriter/executor.go has done.
use go_mcp_gateway.Common.{
  ◌⊎◌, inl, inr, ℕ, suc, ◌+◌, ◌≤◌, ◌≡◌, refl, ap, ◌∙◌, arith, true, Option, none, some, List, [],
  ◌∷◌, length, String, ◌≢◌,
}
use go_mcp_gateway.Common.Text.{Str}
use go_mcp_gateway.Filewriter.Types.{FileOp, ParseError, WriteError, Result, ok, err}
use go_mcp_gateway.Filewriter.Parser.{parse}
use go_mcp_gateway.Filewriter.Files.{Fs, nothing, contents}
use go_mcp_gateway.Filewriter.Apply.{Batch, apply}
use go_mcp_gateway.Filewriter.Apply.Atomic.{apply_failed}
use go_mcp_gateway.Filewriter.Executor.{
  write_failed, Executor, Input, Rung, RunError, Event, output, ladder, applied, climb, run, stop,
  generate_failed, context_done, model_failed, parse_failed, parse_exhausted, RunReason,
  not_written, Cause, write_failure,
}
use go_mcp_gateway.Filewriter.Executor.Stops.{Unread, climb-cases}

-- What a refused run leaves: as many calls as there were rungs at most, every one of them with an
-- output that does not parse if that is the reason, and the contents of the files as they were.
pub record Refused (x : Executor) (input : Input) (rungs : List Rung) (n : ℕ) (fs : Fs)
    (e : RunError) (left : Fs) : Type 0 where
  pub bounded : e.attempts ≤ n + length rungs
  pub untouched : (q : Str) → contents left q ≡ contents fs q
  pub exhausted :
      (e.reason ≢ parse_failed) ⊎ Unread x input n rungs × (e.attempts ≡ n + length rungs)

-- A stop for another reason than the parser's.
stop-Refused :
    (x : Executor) (input : Input) (rungs : List Rung) (n m : ℕ) (fs left : Fs)
    (events : List Event) (t : String) (reason : RunReason) (cause : Cause) (e : RunError)
    → reason ≢ parse_failed
    → m ≤ n + length rungs
    → ((q : Str) → contents left q ≡ contents fs q)
    → (stop reason m t cause left events).answer ≡ err e
    → Refused x input rungs n fs e left
stop-Refused x input rungs n m fs left events t reason cause e other le kept h =
    let same : record { reason = reason; attempts = m; tier = t; cause = cause } ≡ e = cc h in
    record {
      bounded = omega (arith, le, ap (λ f. f.attempts) same);
      untouched = kept;
      exhausted = inl (λ r. other (ap (λ f. f.reason) same ∙ r));
    }

generate≢parse : generate_failed ≢ parse_failed
generate≢parse h = cc h

write≢parse : write_failed ≢ parse_failed
write≢parse h = cc h

module _ (x : Executor)
    (fresh : (fs : Fs) (d t : Str) → x.os.temp_name fs d ≡ some t → fs t ≡ nothing)
    (undone : (p : Str) → x.os.undone p ≡ true) (input : Input) where
  applied-Refused :
      (r₀ : Rung) (rs : List Rung) (n : ℕ) (fs : Fs) (events : List Event) (e : RunError)
      (out : Str) (ops : List FileOp) (w : Result WriteError Batch × Fs)
      → apply x.os x.host x.validator x.steps ops fs ≡ w
      → (applied input r₀ (suc n) out w events).answer ≡ err e
      → Refused x input (r₀ ∷ rs) n fs e (applied input r₀ (suc n) out w events).files
  unfolding applied
  applied-Refused r₀ rs n fs events e out ops (ok b, left) k h = absurd (cc h)
  applied-Refused r₀ rs n fs events e out ops (err f, left) k h =
      stop-Refused x input (r₀ ∷ rs) n (suc n) fs left (write_failure f.reason ∷ events) r₀.tier
        write_failed (not_written f) e write≢parse (omega arith)
        (apply_failed x.os fresh x.steps x.host x.validator ops fs left f undone k) h

  later-Refused :
      (r₀ : Rung) (rs : List Rung) (n : ℕ) (fs left : Fs) (e : RunError) (out : Str)
      (f : ParseError)
      → output x input (suc n) r₀ ≡ some out
      → parse out ≡ err f
      → Refused x input rs (suc n) fs e left
      → Refused x input (r₀ ∷ rs) n fs e left
  later-Refused r₀ rs n fs left e out f o p k = record {
    bounded = omega (arith, k.bounded);
    untouched = k.untouched;
    exhausted = elim k.exhausted [
      | inl h ↦ inl h
      | inr (u, c) ↦ inr (((out, f, o, p), u), omega (arith, c))
    ];
  }

  climb-Refused :
      (rs : List Rung) (n : ℕ) (t : String) (lp : Option ParseError) (fs : Fs) (events : List Event)
      (e : RunError)
      → (climb x input rs n t lp fs events).answer ≡ err e
      → Refused x input rs n fs e (climb x input rs n t lp fs events).files
  unfolding climb
  climb-Refused [] n t lp fs events e h =
      let same : record {
        reason = parse_failed;
        attempts = n;
        tier = t;
        cause = parse_exhausted lp;
      }
          ≡ e =
        cc h in
      record {
        bounded = omega (arith, ap (λ f. f.attempts) same);
        untouched = λ q. refl;
        exhausted = inr (tt, omega (arith, ap (λ f. f.attempts) same));
      }
  climb-Refused (r₀ ∷ rs) n t lp fs events e h =
      climb-cases x input r₀ rs n t lp fs events
        (λ rep. rep.answer ≡ err e → Refused x input (r₀ ∷ rs) n fs e rep.files)
        (stop-Refused x input (r₀ ∷ rs) n n fs fs events t generate_failed context_done e
          generate≢parse (omega arith) (λ q. refl))
        (stop-Refused x input (r₀ ∷ rs) n (suc n) fs fs events r₀.tier generate_failed model_failed
          e generate≢parse (omega arith) (λ q. refl))
        (λ out f o p k.
          later-Refused r₀ rs n fs _ e out f o p
            (climb-Refused rs (suc n) r₀.tier (some f) fs _ e k))
        (λ out ops o p k. applied-Refused r₀ rs n fs events e out ops _ refl k) h

-- A run that is refused makes a call for each rung at most and leaves the contents of every file as
-- they were, whatever call failed, if `os.CreateTemp` picks an unused name and what undoes a call
-- succeeds. If the reason is the parser's then it made all the calls, and no output parses.
pub run-Refused :
    (x : Executor) (input : Input) (fs : Fs) (e : RunError)
    → ((fs : Fs) (d t : Str) → x.os.temp_name fs d ≡ some t → fs t ≡ nothing)
    → ((p : Str) → x.os.undone p ≡ true)
    → (run x input fs).answer ≡ err e
    → Refused x input (ladder x.next_tier input.tier) 0 fs e (run x input fs).files
unfolding run
run-Refused x input fs e fresh undone h =
    climb-Refused x fresh undone input (ladder x.next_tier input.tier) 0 input.tier none fs [] e h
