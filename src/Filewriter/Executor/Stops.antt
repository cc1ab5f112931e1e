-- ===== src/Filewriter/Executor/Stops.antt =====
-- Where a run of internal/filewriter/executor.go stops, and what it then has done.
use go_mcp_gateway.Common.{
  length-append, ℕ, suc, ◌+◌, ◌≤◌, ◌≡◌, refl, sym, ap, ◌∙◌, subst, arith, true, false, Bool-cases,
  Option, Option-cases, none, some, List, [], ◌∷◌, ◌++◌, length, String, inl, inr,
}
use go_mcp_gateway.Common.Text.{Str}
use go_mcp_gateway.Filewriter.Types.{FileOp, ParseError, WriteError, Result, ok, err, Result-cases}
use go_mcp_gateway.Filewriter.Parser.{parse}
use go_mcp_gateway.Filewriter.Files.{Fs}
use go_mcp_gateway.Filewriter.Apply.{Batch, apply}
use go_mcp_gateway.Filewriter.Executor.{
  Executor, Input, Rung, Report, RunResult, Event, output, ladder, applied, climb, run, stop,
  parse_failure, generate_failed, context_done, model_failed,
}

-- The model's answers to these rungs, from a number of calls on, do not parse.
abbrev pub Unread : Executor → Input → ℕ → List Rung → Type 0
Unread x input n [] = Unit
Unread x input n (r ∷ rs) =
    ((out : Str) × (e : ParseError) × (output x input (suc n) r ≡ some out) × (parse out ≡ err e))
    × Unread x input (suc n) rs

-- A result is the output of the first rung whose output parses, and what applying it gave.
pub record Accepted (x : Executor) (input : Input) (rungs : List Rung) (n : ℕ) (fs : Fs)
    (r : RunResult) (left : Fs) : Type 0 where
  pub before : List Rung
  pub rung : Rung
  pub after : List Rung
  pub ops : List FileOp
  pub batch : Batch
  pub split : rungs ≡ before ++ rung ∷ after
  pub unread : Unread x input n before
  pub attempts : r.attempts ≡ n + length before + 1
  pub tier : r.tier ≡ rung.tier
  pub generated : output x input r.attempts rung ≡ some r.content
  pub parsed : parse r.content ≡ ok ops
  pub written : apply x.os x.host x.validator x.steps ops fs ≡ (ok batch, left)
  pub changes : r.changes ≡ batch.changes

applied-ok :
    (input : Input) (rung : Rung) (n : ℕ) (out : Str) (w : Result WriteError Batch × Fs)
    (events : List Event) (r : RunResult)
    → (applied input rung n out w events).answer ≡ ok r
    → (b : Batch) × (w ≡ (ok b, (applied input rung n out w events).files))
      × (r ≡ record { content = out; tier = rung.tier; attempts = n; changes = b.changes })
unfolding applied
applied-ok input rung n out (err e, fs) events r h = absurd (cc h)
applied-ok input rung n out (ok b, fs) events r h = (b, refl, cc h)

later-Accepted :
    (x : Executor) (input : Input) (r₀ : Rung) (rs : List Rung) (n : ℕ) (fs left : Fs)
    (r : RunResult) (out : Str) (e : ParseError)
    → output x input (suc n) r₀ ≡ some out
    → parse out ≡ err e
    → Accepted x input rs (suc n) fs r left
    → Accepted x input (r₀ ∷ rs) n fs r left
later-Accepted x input r₀ rs n fs left r out e h k a = record {
  before = r₀ ∷ a.before;
  rung = a.rung;
  after = a.after;
  ops = a.ops;
  batch = a.batch;
  split = ap (λ qs. r₀ ∷ qs) a.split;
  unread = ((out, e, h, k), a.unread);
  attempts = omega (arith, a.attempts);
  tier = a.tier;
  generated = a.generated;
  parsed = a.parsed;
  written = a.written;
  changes = a.changes;
}

module _ (x : Executor) (input : Input) (r₀ : Rung) (rs : List Rung) (n : ℕ) (t : String)
    (lp : Option ParseError) (fs : Fs) (events : List Event) where
  climb-cancelled :
      x.cancelled n ≡ true
      → climb x input (r₀ ∷ rs) n t lp fs events ≡ stop generate_failed n t context_done fs events
  unfolding climb
  climb-cancelled c = rw c refl

  climb-no_output :
      x.cancelled n ≡ false
      → output x input (suc n) r₀ ≡ none
      → climb x input (r₀ ∷ rs) n t lp fs events
        ≡ stop generate_failed (suc n) r₀.tier model_failed fs events
  unfolding climb
  climb-no_output c o = rw (c, o) refl

  climb-unread :
      (out : Str) (e : ParseError)
      → x.cancelled n ≡ false
      → output x input (suc n) r₀ ≡ some out
      → parse out ≡ err e
      → climb x input (r₀ ∷ rs) n t lp fs events
        ≡ climb x input rs (suc n) r₀.tier (some e) fs (parse_failure e.reason r₀.tier ∷ events)
  unfolding climb
  climb-unread out e c o p = rw (c, o, p) refl

  climb-applied :
      (out : Str) (ops : List FileOp)
      → x.cancelled n ≡ false
      → output x input (suc n) r₀ ≡ some out
      → parse out ≡ ok ops
      → climb x input (r₀ ∷ rs) n t lp fs events
        ≡ applied input r₀ (suc n) out (apply x.os x.host x.validator x.steps ops fs) events
  unfolding climb
  climb-applied out ops c o p = rw (c, o, p) refl

  -- A property of every report that this turn can lead to is one of the report it leads to.
  pub climb-cases {ℓ} :
      (P : Report → Type ℓ)
      → P (stop generate_failed n t context_done fs events)
      → P (stop generate_failed (suc n) r₀.tier model_failed fs events)
      → ((out : Str) (e : ParseError)
          → output x input (suc n) r₀ ≡ some out
          → parse out ≡ err e
          → P (
              climb x input rs
                (suc n)
                r₀.tier
                (some e)
                fs
                (parse_failure e.reason r₀.tier ∷ events)))
      → ((out : Str) (ops : List FileOp)
          → output x input (suc n) r₀ ≡ some out
          → parse out ≡ ok ops
          → P (applied input r₀ (suc n) out (apply x.os x.host x.validator x.steps ops fs) events))
      → P (climb x input (r₀ ∷ rs) n t lp fs events)
  climb-cases P stopped no_output unread served = elim (Bool-cases (x.cancelled n)) [
    | inl c ↦ subst P (sym (climb-cancelled c)) stopped
    | inr c ↦ elim (Option-cases (output x input (suc n) r₀)) [
      | inl o ↦ subst P (sym (climb-no_output c o)) no_output
      | inr (out, o) ↦ elim (Result-cases (parse out)) [
        | inl (ops, p) ↦ subst P (sym (climb-applied out ops c o p)) (served out ops o p)
        | inr (e, p) ↦ subst P (sym (climb-unread out e c o p)) (unread out e o p)
      ]
    ]
  ]

here-Accepted :
    (x : Executor) (input : Input) (r₀ : Rung) (rs : List Rung) (n : ℕ) (fs : Fs)
    (events : List Event) (r : RunResult) (out : Str) (ops : List FileOp)
    → output x input (suc n) r₀ ≡ some out
    → parse out ≡ ok ops
    → (applied input r₀ (suc n) out (apply x.os x.host x.validator x.steps ops fs) events).answer
      ≡ ok r
    → Accepted x input
        (r₀ ∷ rs)
        n
        fs
        r
        (applied input r₀ (suc n) out (apply x.os x.host x.validator x.steps ops fs) events).files
here-Accepted x input r₀ rs n fs events r out ops o p h =
    let (b, w, same) =
      applied-ok input r₀ (suc n) out (apply x.os x.host x.validator x.steps ops fs) events r h in
    record {
      before = [];
      rung = r₀;
      after = rs;
      ops = ops;
      batch = b;
      split = refl;
      unread = tt;
      attempts = ap (λ q. q.attempts) same ∙ omega arith;
      tier = ap (λ q. q.tier) same;
      generated =
          ap (λ q. output x input q.attempts r₀) same ∙ o ∙ ap (λ q. some q.content) (sym same);
      parsed = ap (λ q. parse q.content) same ∙ p;
      written = w;
      changes = ap (λ q. q.changes) same;
    }

climb-Accepted :
    (x : Executor) (input : Input) (rs : List Rung) (n : ℕ) (t : String) (lp : Option ParseError)
    (fs : Fs) (events : List Event) (r : RunResult)
    → (climb x input rs n t lp fs events).answer ≡ ok r
    → Accepted x input rs n fs r (climb x input rs n t lp fs events).files
unfolding climb
climb-Accepted x input [] n t lp fs events r h = absurd (cc h)
climb-Accepted x input (r₀ ∷ rs) n t lp fs events r k =
    climb-cases x input r₀ rs n t lp fs events
      (λ rep. rep.answer ≡ ok r → Accepted x input (r₀ ∷ rs) n fs r rep.files) (λ h. absurd (cc h))
      (λ h. absurd (cc h))
      (λ out e o p h.
        later-Accepted x input r₀ rs n fs _ r out e o p
          (climb-Accepted x input rs (suc n) r₀.tier (some e) fs _ r h))
      (λ out ops o p h. here-Accepted x input r₀ rs n fs events r out ops o p h) k

length-split :
    {A : Type 0} (xs ys zs : List A) (z : A) → xs ≡ ys ++ z ∷ zs → length ys + 1 ≤ length xs
length-split xs ys zs z h = omega (arith, ap length h, length-append ys (z ∷ zs))

pub ladder-length : (next : String → Option String) (t : String) → length (ladder next t) ≤ 3
unfolding ladder
ladder-length next t = elim (Option-cases (next t)) [
  | inl e ↦ rw e (omega arith)
  | inr (u, e) ↦ rw e (omega arith)
]

-- A run that has a result made at most three calls; its result is the output of the first call
-- whose output parses, by the tier of that call, the outputs before do not parse, and the
-- operations it parses to were applied to the files as they were at the start.
pub run-Accepted :
    (x : Executor) (input : Input) (fs : Fs) (r : RunResult)
    → (run x input fs).answer ≡ ok r
    → (r.attempts ≤ 3)
      × Accepted x input (ladder x.next_tier input.tier) 0 fs r (run x input fs).files
unfolding run
run-Accepted x input fs r h =
    let a = climb-Accepted x input (ladder x.next_tier input.tier) 0 input.tier none fs [] r h in
    (
      omega (
        arith,
        a.attempts,
        length-split _ a.before a.after a.rung a.split,
        ladder-length x.next_tier input.tier,
      ),
      a,
    )
