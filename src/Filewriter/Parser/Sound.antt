-- ===== src/Filewriter/Parser/Sound.antt =====
-- What `Parse` (internal/filewriter/parser.go) promises of the operations that it returns.
use go_mcp_gateway.Common.{
  Has, sym, All-map, ℕ, zero, suc, ◌≡◌, ◌≢◌, ◌⊎◌, inl, inr, refl, List, [], ◌∷◌, ◌++◌, true, false,
  All, All-append, arith, ap, subst, Bool-cases, Option-cases, none, some, ◌+◌, Option, ◌∙◌,
}
use go_mcp_gateway.Common.Text.{
  Str, codes, trim_prefix, trim_prefix-append, has_prefix→append, str_eq_iff, has_prefix,
  trim_space, split, is_empty,
}
use go_mcp_gateway.Filewriter.Types.{
  OpKind, write, create, modify, delete, FileOp, ParseError, Result, ok, err,
}
use go_mcp_gateway.Filewriter.FilePath.{clean}
use go_mcp_gateway.Filewriter.Parser.{
  info_prefix_file, info_prefix_delete, classify_info, info_of, collect_body, skip_to_close,
  is_seen, fence_marker, op_of, scan, require_ops, parse, no_operations,
}

-- A line of the answer is, trimmed, a fence with this marker and this path behind it.
abbrev pub Names : List Str → Str → Str → Type 0
Names lines marker raw =
    (line : Str) × Has line lines
    × (info : Str) × (trim_space line ≡ codes "```" ++ info)
    × (given : Str) × (trim_space info ≡ marker ++ given)
    × (raw ≡ trim_space given)

-- What a block for this kind of operation says of its path.
abbrev pub IsNamed : List Str → OpKind → Str → Type 0
IsNamed lines kind raw =
    (kind ≡ write) × Names lines (codes "file:") raw
    ⊎ (kind ≡ delete) × Names lines (codes "file-delete:") raw

-- An operation as the parser makes it from the lines of an answer: a write or a delete of the path
-- that a line names, cleaned; a delete has no content.
pub record IsParsed (lines : List Str) (op : FileOp) : Type 0 where
  pub named : IsNamed lines op.kind op.raw_path
  pub empty : (op.kind ≡ write) ⊎ (op.content ≡ [])
  pub given : op.raw_path ≢ []
  pub cleaned : op.path ≡ clean op.raw_path

-- No two operations have one path.
abbrev pub Distinct : List FileOp → Type 0
Distinct [] = Unit {0}
Distinct (op ∷ ops) = All (λ o. op.path ≢ o.path) ops × Distinct ops

record Found (text : List Str) (ops : List FileOp) (seen : List Str) : Type 0 where
  parsed : All (IsParsed text) ops
  distinct : Distinct ops
  known : All (λ o. is_seen o.path seen ≡ true) ops

Distinct-snoc :
    (ops : List FileOp) (op : FileOp)
    → Distinct ops
    → All (λ o. o.path ≢ op.path) ops
    → Distinct (ops ++ op ∷ [])
Distinct-snoc [] op h k = (tt, tt)
Distinct-snoc (o ∷ ops) op h k =
    (All-append _ ops (op ∷ []) h.0 (k.0, tt), Distinct-snoc ops op h.1 k.1)

abbrev Behind : Str → Str → Str → Type 0
Behind info marker raw = (given : Str) × (info ≡ marker ++ given) × (raw ≡ trim_space given)

marked :
    (info marker raw : Str)
    → has_prefix info marker ≡ true
    → raw ≡ trim_space (trim_prefix info marker)
    → Behind info marker raw
marked info marker raw h e =
    let (given, k) = has_prefix→append info marker h in
    (
      given,
      k,
      e
          ∙ ap (λ t. trim_space (trim_prefix t marker)) k
          ∙ ap trim_space (trim_prefix-append marker given),
    )

-- The kind, and the path behind its marker.
classify_info-cases :
    (info raw : Str) (kind : OpKind)
    → classify_info info ≡ some (kind, raw)
    → (kind ≡ write) × Behind info (codes "file:") raw
      ⊎ (kind ≡ delete) × Behind info (codes "file-delete:") raw
unfolding classify_info
classify_info-cases info raw kind h = elim (Bool-cases (has_prefix info info_prefix_delete)) [
  | inl d ↦
      let same : ◌≡◌ {A = OpKind × Str} (delete, trim_space (trim_prefix info info_prefix_delete))
          (kind, raw) =
        cc (rw (d, classify_info) at h) in
      inr
        (sym (ap (λ b. b.0) same), marked info info_prefix_delete raw d (sym (ap (λ b. b.1) same)))
  | inr d ↦ elim (Bool-cases (has_prefix info info_prefix_file)) [
    | inl f ↦
        let same : ◌≡◌ {A = OpKind × Str} (write, trim_space (trim_prefix info info_prefix_file))
            (kind, raw) =
          cc (rw (d, f, classify_info) at h) in
        inl
          (sym (ap (λ b. b.0) same), marked info info_prefix_file raw f (sym (ap (λ b. b.1) same)))
    | inr f ↦ absurd (cc (rw (d, f, classify_info) at h))
  ]
]

opens-IsNamed :
    (text : List Str) (line raw : Str) (kind : OpKind)
    → Has line text
    → has_prefix (trim_space line) fence_marker ≡ true
    → classify_info (info_of (trim_space line)) ≡ some (kind, raw)
    → IsNamed text kind raw
unfolding info_of
opens-IsNamed text line raw kind here fence h =
    let (info, e) = has_prefix→append (trim_space line) fence_marker fence in
    let trimmed : info_of (trim_space line) ≡ trim_space info =
      ap (λ t. trim_space (trim_prefix t fence_marker)) e
      ∙ ap trim_space (trim_prefix-append fence_marker info) in
    elim (classify_info-cases (info_of (trim_space line)) raw kind h) [
      | inl (k, (given, i, r)) ↦ inl (k, (line, here, info, e, given, sym trimmed ∙ i, r))
      | inr (k, (given, i, r)) ↦ inr (k, (line, here, info, e, given, sym trimmed ∙ i, r))
    ]

op_of-IsParsed :
    (text : List Str) (kind : OpKind) (raw body : Str)
    → IsNamed text kind raw
    → raw ≢ []
    → IsParsed text (op_of kind raw body)
op_of-IsParsed text write raw body k h = record {
  named = k;
  empty = inl refl;
  given = h;
  cleaned = refl;
}
op_of-IsParsed text create raw body (inl k) h = absurd (ground (arith, k.0))
op_of-IsParsed text create raw body (inr k) h = absurd (ground (arith, k.0))
op_of-IsParsed text modify raw body (inl k) h = absurd (ground (arith, k.0))
op_of-IsParsed text modify raw body (inr k) h = absurd (ground (arith, k.0))
op_of-IsParsed text delete raw body k h = record {
  named = k;
  empty = inr refl;
  given = h;
  cleaned = refl;
}

not_seen : (p q : Str) (seen : List Str) → is_seen q seen ≡ false → is_seen p seen ≡ true → p ≢ q
not_seen p q seen h k e = cc (ap (λ x. is_seen x seen) e)

seen_more : (p q : Str) (seen : List Str) → is_seen p seen ≡ true → is_seen p (q ∷ seen) ≡ true
unfolding is_seen
seen_more p q seen h = ground arith

seen_self : (q : Str) (seen : List Str) → is_seen q (q ∷ seen) ≡ true
unfolding is_seen
seen_self q seen = ground (arith, str_eq_iff q q)

Found-snoc :
    (text : List Str) (kind : OpKind) (raw body : Str) (ops : List FileOp) (seen : List Str)
    → IsNamed text kind raw
    → raw ≢ []
    → is_seen (clean raw) seen ≡ false
    → Found text ops seen
    → Found text (ops ++ op_of kind raw body ∷ []) (clean raw ∷ seen)
Found-snoc text kind raw body ops seen k h new f = record {
  parsed = All-append _ ops _ f.parsed (op_of-IsParsed text kind raw body k h, tt);
  distinct =
      Distinct-snoc ops _ f.distinct
        (All-map ops (λ o. not_seen o.path (clean raw) seen new) f.known);
  known =
      All-append _ ops _ (All-map ops (λ o. seen_more o.path (clean raw) seen) f.known)
        (seen_self (clean raw) seen, tt);
}

ne-nil_of_not_empty : (s : Str) → is_empty s ≡ false → s ≢ []
ne-nil_of_not_empty [] h e = cc
ne-nil_of_not_empty (c ∷ s) h e = cc

Has-later : (line l : Str) (lines : List Str) → Has l lines → Has l (line ∷ lines)
Has-later line l lines (b, a, e) = (line ∷ b, a, ap (λ t. line ∷ t) e)

scan-Found :
    (text : List Str) (skip : ℕ) (lines : List Str) (n : ℕ) (ops : List FileOp) (seen : List Str)
    (found : List FileOp)
    → ((l : Str) → Has l lines → Has l text)
    → Found text ops seen
    → scan skip lines n ops seen ≡ ok found
    → All (IsParsed text) found × Distinct found
unfolding scan
scan-Found text skip [] n ops seen found inside f e =
    subst (λ o. All (IsParsed text) o × Distinct o) (ground arith) (f.parsed, f.distinct)
scan-Found text (suc skip) (line ∷ lines) n ops seen found inside f e =
    scan-Found text skip lines (suc n) ops seen found (λ l h. inside l (Has-later line l lines h)) f
      e
scan-Found text zero (line ∷ lines) n ops seen found inside f e =
    let later : (l : Str) → Has l lines → Has l text = λ l h. inside l (Has-later line l lines h) in
    elim (Bool-cases (has_prefix (trim_space line) fence_marker)) [
      | inr p ↦ scan-Found text zero lines (suc n) ops seen found later f (rw (p, scan) at e)
      | inl p ↦ elim (Option-cases (classify_info (info_of (trim_space line)))) [
        | inl q ↦
            scan-Found text (skip_to_close lines) lines (suc n) ops seen found later f
              (rw (p, q, scan) at e)
        | inr ((kind, raw), q) ↦ elim (Bool-cases (is_empty raw)) [
          | inl r ↦ cc (rw (p, q, r, scan) at e)
          | inr r ↦ elim (Option-cases (collect_body lines)) [
            | inl s ↦ cc (rw (p, q, r, s, scan) at e)
            | inr ((body, close), s) ↦ elim (Bool-cases (is_seen (clean raw) seen)) [
              | inl t ↦ cc (rw (p, q, r, s, t, scan) at e)
              | inr t ↦
                  scan-Found text (suc close) lines (suc n) _ _ found later
                    (Found-snoc text kind raw body ops seen
                      (opens-IsNamed text line raw kind (inside line ([], lines, refl)) p q)
                      (ne-nil_of_not_empty raw r) t f)
                    (rw (p, q, r, s, t, scan) at e)
            ]
          ]
        ]
      ]
    ]

abbrev Sound : List Str → Result ParseError (List FileOp) → Type 0
Sound text (err e) = Unit
Sound text (ok ops) = (ops ≢ []) × All (IsParsed text) ops × Distinct ops

require_ops-Sound :
    (text : List Str) (ops : List FileOp)
    → All (IsParsed text) ops × Distinct ops
    → Sound text (require_ops ops)
require_ops-Sound text [] h = tt
require_ops-Sound text (op ∷ ops) h = (λ e. cc, h.0, h.1)

scan_lines : (s : Str) → Result ParseError (List FileOp)
scan_lines s = scan zero (split b'\n' s) 1 [] []

parse-Sound :
    (output : Str) (r : Result ParseError (List FileOp))
    → scan_lines output ≡ r
    → Sound (split b'\n' output) (parse output)
unfolding scan_lines parse
parse-Sound output (err e) h = rw (h, parse) tt
parse-Sound output (ok ops) h =
    let text = split b'\n' output in
    rw (h, parse)
      (require_ops-Sound text ops (
        scan-Found text zero text 1 [] [] ops (λ l k. k)
          (record { parsed = tt; distinct = tt; known = tt }) h))

-- `Parse` never returns an empty list without an error. Each operation that it returns is a write
-- or a delete of the path that a line of the answer names behind the marker for that kind, cleaned,
-- with no content for a delete, and no two of them have the same path.
pub parse_sound :
    (output : Str) (ops : List FileOp)
    → parse output ≡ ok ops
    → (ops ≢ []) × All (IsParsed (split b'\n' output)) ops × Distinct ops
unfolding scan_lines
parse_sound output ops e =
    subst (Sound (split b'\n' output)) e (parse-Sound output (scan_lines output) refl)

-- The line of an answer that a number counts to, from 1 on.
abbrev pub line_at : List Str → ℕ → Option Str
line_at lines zero = none
line_at [] (suc n) = none
line_at (line ∷ lines) (suc zero) = some line
line_at (line ∷ lines) (suc (suc n)) = line_at lines (suc n)

-- The line opens an operation block.
pub record Opens (line : Str) : Type 0 where
  pub fence : has_prefix (trim_space line) fence_marker ≡ true
  pub block : (b : OpKind × Str) × (classify_info (info_of (trim_space line)) ≡ some b)

-- `lines` are left from number `n` on, and the error is at one of them that opens a block.
record AtFence (n : ℕ) (lines : List Str) (e : ParseError) : Type 0 where
  before : ℕ
  number : e.line ≡ n + before
  line : Str
  there : line_at lines (suc before) ≡ some line
  opens : Opens line

AtFence-cons :
    (n : ℕ) (l : Str) (lines : List Str) (e : ParseError)
    → AtFence (suc n) lines e
    → AtFence n (l ∷ lines) e
AtFence-cons n l lines e a = record {
  before = suc a.before;
  number = omega (arith, a.number);
  line = a.line;
  there = a.there;
  opens = a.opens;
}

AtFence-here :
    (n : ℕ) (line : Str) (lines : List Str) (e : ParseError)
    → e.line ≡ n
    → Opens line
    → AtFence n (line ∷ lines) e
AtFence-here n line lines e h o = record {
  before = 0;
  number = omega (arith, h);
  line = line;
  there = refl;
  opens = o;
}

scan-AtFence :
    (skip : ℕ) (lines : List Str) (n : ℕ) (ops : List FileOp) (seen : List Str) (e : ParseError)
    → scan skip lines n ops seen ≡ err e
    → AtFence n lines e
unfolding scan
scan-AtFence skip [] n ops seen e h = absurd (cc h)
scan-AtFence (suc skip) (line ∷ lines) n ops seen e h =
    AtFence-cons n line lines e (scan-AtFence skip lines (suc n) ops seen e h)
scan-AtFence zero (line ∷ lines) n ops seen e h =
    elim (Bool-cases (has_prefix (trim_space line) fence_marker)) [
      | inr p ↦
          AtFence-cons n line lines e
            (scan-AtFence zero lines (suc n) ops seen e (rw (p, scan) at h))
      | inl p ↦ elim (Option-cases (classify_info (info_of (trim_space line)))) [
        | inl q ↦
            AtFence-cons n line lines e
              (scan-AtFence (skip_to_close lines) lines (suc n) ops seen e (rw (p, q, scan) at h))
        | inr ((kind, raw), q) ↦
            let here : (m : ℕ) → m ≡ n → e.line ≡ m → AtFence n (line ∷ lines) e = λ m a b.
              AtFence-here n line lines e (b ∙ a)
                (record { fence = p; block = ((kind, raw), q) }) in
            elim (Bool-cases (is_empty raw)) [
              | inl r ↦ here n refl (cc (rw (p, q, r, scan) at h))
              | inr r ↦ elim (Option-cases (collect_body lines)) [
                | inl s ↦ here n refl (cc (rw (p, q, r, s, scan) at h))
                | inr ((body, close), s) ↦ elim (Bool-cases (is_seen (clean raw) seen)) [
                  | inl t ↦ here n refl (cc (rw (p, q, r, s, t, scan) at h))
                  | inr t ↦
                      AtFence-cons n line lines e (
                        scan-AtFence (suc close) lines (suc n) _ _ e
                          (rw (p, q, r, s, t, scan) at h))
                ]
              ]
            ]
      ]
    ]

abbrev Located : Str → ParseError → Type 0
Located output e =
    (e ≡ record { reason = no_operations; line = 0 })
    ⊎ ((line : Str) × (line_at (split b'\n' output) e.line ≡ some line) × Opens line)

AtFence-Located :
    (output : Str) (e : ParseError) → AtFence 1 (split b'\n' output) e → Located output e
AtFence-Located output e a =
    let number : suc a.before ≡ e.line = omega (arith, a.number) in
    inr (a.line, subst (λ n. line_at (split b'\n' output) n ≡ some a.line) number a.there, a.opens)

parse-Located :
    (output : Str) (r : Result ParseError (List FileOp)) (e : ParseError)
    → scan_lines output ≡ r
    → parse output ≡ err e
    → Located output e
unfolding scan_lines parse
parse-Located output (err f) e h k =
    AtFence-Located output e
      (scan-AtFence zero (split b'\n' output) 1 [] [] e (h ∙ (rw (h, parse) at k)))
parse-Located output (ok []) e h k = inl (cc (rw (h, parse) at k))
parse-Located output (ok (op ∷ ops)) e h k = absurd (cc (rw (h, parse) at k))

-- An error of `Parse` that names a line names, from 1 on, a line of the answer that opens an
-- operation block; the only error that names none is that there are no operations.
pub parse_error_line :
    (output : Str) (e : ParseError)
    → parse output ≡ err e
    → (e ≡ record { reason = no_operations; line = 0 })
      ⊎ ((line : Str) × (line_at (split b'\n' output) e.line ≡ some line) × Opens line)
parse_error_line output e h = parse-Located output (scan_lines output) e refl h
