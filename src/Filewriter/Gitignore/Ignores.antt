-- ===== src/Filewriter/Gitignore/Ignores.antt =====
-- What internal/filewriter/gitignore.go ignores.
use go_mcp_gateway.Common.{
  Has, ◌≡◌, refl, sym, ap, ◌∙◌, ◌⊎◌, inl, inr, ◌↔◌, arith, ◌||◌, not, Bool, true, false, Bool-cases,
  List, [], ◌∷◌, ◌++◌, map, All, if◌then◌else◌,
}
use go_mcp_gateway.Common.Text.{
  Str, codes, str_eq, contains, has_prefix, Without, split, join, split-join, str_eq→≡, str_eq_refl,
}
use go_mcp_gateway.Filewriter.FilePath.Elements.{split-Without}
use go_mcp_gateway.Filewriter.Glob.{glob_match}
use go_mcp_gateway.Filewriter.Glob.Matches.{IsPlain, file_match-plain}
use go_mcp_gateway.Filewriter.Gitignore.{
  IgnoreRule, any_match, ancestors, candidates, candidate_matches, any_candidate, rule_matches,
  scan_rules, is_ignored,
}

-- Nothing that matches stands behind the rule that decides.
pub record Decides (rules : List IgnoreRule) (rel : Str) (segments : List Str) : Type 0 where
  pub before : List IgnoreRule
  pub rule : IgnoreRule
  pub after : List IgnoreRule
  pub cut : rules ≡ before ++ rule ∷ after
  pub hit : rule_matches rule rel segments ≡ true
  pub quiet : All (λ r. rule_matches r rel segments ≡ false) after

scan_rules-cases :
    (rules : List IgnoreRule) (rel : Str) (segments : List Str) (ignored : Bool)
    → ((d : Decides rules rel segments) × (scan_rules rules rel segments ignored
          ≡ not d.rule.negate))
      ⊎ (All (λ r. rule_matches r rel segments ≡ false) rules
          × (scan_rules rules rel segments ignored ≡ ignored))
unfolding scan_rules
scan_rules-cases [] rel segments ignored = inr (tt, refl)
scan_rules-cases (r ∷ rules) rel segments ignored =
    elim (scan_rules-cases rules rel segments
      (if rule_matches r rel segments then not r.negate else ignored)) [
        | inl (d, e) ↦ inl (
          record {
            before = r ∷ d.before;
            rule = d.rule;
            after = d.after;
            cut = ap (λ t. r ∷ t) d.cut;
            hit = d.hit;
            quiet = d.quiet;
          },
          e,
        )
        | inr (q, e) ↦ elim (Bool-cases (rule_matches r rel segments)) [
          | inl h ↦ inl (
            record { before = []; rule = r; after = rules; cut = refl; hit = h; quiet = q },
            e ∙ rw h refl,
          )
          | inr h ↦ inr ((h, q), e ∙ rw h refl)
        ]
      ]

-- The last rule that matches decides: the path is ignored exactly if that rule is no negation. A
-- path that no rule matches is not ignored.
pub last_rule_wins :
    (rules : List IgnoreRule) (rel : Str)
    → ((d : Decides rules rel (split b'/' rel)) × (is_ignored rules rel ≡ not d.rule.negate))
      ⊎ (All (λ r. rule_matches r rel (split b'/' rel) ≡ false) rules
          × (is_ignored rules rel ≡ false))
unfolding is_ignored
last_rule_wins rules rel = scan_rules-cases rules rel (split b'/' rel) false

plain-contains : (p : Str) → All IsPlain p → contains p (codes "**") ≡ false
unfolding contains has_prefix
plain-contains [] h = refl
plain-contains (c ∷ p) h = ground (arith, plain-contains p h.1)

glob_match-plain : (p n : Str) → All IsPlain p → glob_match p n ≡ str_eq n p
unfolding glob_match
glob_match-plain p n h = rw (plain-contains p h) (file_match-plain p n h)

any_in : Str → List (List Str) → Bool
unfolding any_match
any_in p [] = false
any_in p (a ∷ paths) = any_match p a || any_in p paths

any_in-map :
    (p x : Str) (paths : List (List Str))
    → glob_match p x ≡ false
    → any_in p (map (λ a. x ∷ a) paths) ≡ any_in p paths
unfolding any_in any_match
any_in-map p x [] h = refl
any_in-map p x (a ∷ paths) h = rw (h, any_in-map p x paths h) refl

-- All segments but the last.
abbrev pub init : List Str → List Str
init [] = []
init (x ∷ []) = []
init (x ∷ y ∷ r) = x ∷ init (y ∷ r)

any_in-ancestors :
    (p : Str) (segments : List Str) → any_in p (ancestors segments) ≡ any_match p (init segments)
unfolding any_in ancestors any_match
any_in-ancestors p [] = refl
any_in-ancestors p (x ∷ []) = refl
any_in-ancestors p (x ∷ y ∷ r) = elim (Bool-cases (glob_match p x)) [
  | inl e ↦ rw e refl
  | inr e ↦ rw (e, any_in-map p x (ancestors (y ∷ r)) e) (any_in-ancestors p (y ∷ r))
]

abbrev IsPath : List Str → Type 0
IsPath [] = ⊥
IsPath (s ∷ segments) = All (Without b'/') (s ∷ segments)

IsPath-cons :
    (x : Str) → Without b'/' x → (segments : List Str) → IsPath segments → IsPath (x ∷ segments)
IsPath-cons x h [] k = absurd k
IsPath-cons x h (s ∷ segments) k = (h, k)

All-IsPath-cons :
    (x : Str) (paths : List (List Str))
    → Without b'/' x
    → All IsPath paths
    → All IsPath (map (λ a. x ∷ a) paths)
All-IsPath-cons x [] h k = tt
All-IsPath-cons x (a ∷ paths) h k = (IsPath-cons x h a k.0, All-IsPath-cons x paths h k.1)

ancestors-IsPath :
    (segments : List Str) → All (Without b'/') segments → All IsPath (ancestors segments)
unfolding ancestors
ancestors-IsPath [] h = tt
ancestors-IsPath (x ∷ []) h = tt
ancestors-IsPath (x ∷ y ∷ r) h =
    ((h.0, tt), All-IsPath-cons x (ancestors (y ∷ r)) h.0 (ancestors-IsPath (y ∷ r) h.1))

module _ (r : IgnoreRule) (slashless : r.has_slash ≡ false) (floating : r.anchored ≡ false) where
  by_segment : (c : Str) → candidate_matches r c ≡ any_match r.pattern (split b'/' c)
  unfolding candidate_matches
  by_segment c = rw (slashless, floating) refl

  path_matches :
      (segments : List Str)
      → IsPath segments
      → candidate_matches r (join b'/' segments) ≡ any_match r.pattern segments
  path_matches [] h = absurd h
  path_matches (s ∷ segments) h =
      by_segment (join b'/' (s ∷ segments))
      ∙ ap (any_match r.pattern) (split-join b'/' s segments h)

  any_candidate-join :
      (paths : List (List Str))
      → All IsPath paths
      → any_candidate r (map (join b'/') paths) ≡ any_in r.pattern paths
  unfolding any_candidate any_in
  any_candidate-join [] h = refl
  any_candidate-join (a ∷ paths) h = rw (path_matches a h.0, any_candidate-join paths h.1) refl

  any_false : (b : Bool) → (b || false) ≡ b
  any_false true = refl
  any_false false = refl

  rule_matches-any :
      (rel : Str)
      → rule_matches r rel (split b'/' rel)
        ≡ any_match r.pattern (if r.dir_only then init (split b'/' rel) else split b'/' rel)
  unfolding rule_matches any_candidate candidates
  rule_matches-any rel = elim (Bool-cases r.dir_only) [
    | inl e ↦ rw e (
        any_candidate-join (ancestors (split b'/' rel))
          (ancestors-IsPath (split b'/' rel) (split-Without b'/' rel))
        ∙ any_in-ancestors r.pattern (split b'/' rel))
    | inr e ↦ rw e (any_false _ ∙ by_segment rel)
  ]

any_true : (b : Bool) → (b || true) ≡ true
any_true true = refl
any_true false = refl

any_match-Has :
    (p : Str) (names : List Str) → All IsPlain p → (any_match p names ≡ true) ↔ Has p names
unfolding any_match
any_match-Has p names h = (found names, λ x. at_hand x.0 names x.1 x.2)
  where
    found : (ns : List Str) → any_match p ns ≡ true → Has p ns
    found [] e = absurd (cc e)
    found (n ∷ ns) e = elim (Bool-cases (glob_match p n)) [
      | inl k ↦ ([], ns, ap (λ t. t ∷ ns) (str_eq→≡ n p (sym (glob_match-plain p n h) ∙ k)))
      | inr k ↦ let (b, a, q) = found ns (rw (k, any_match) at e) in (n ∷ b, a, ap (λ t. n ∷ t) q)
    ]

    at_hand :
        (b : List Str) (ns : List Str) (a : List Str) → ns ≡ b ++ p ∷ a → any_match p ns ≡ true
    at_hand [] ns a e = rw (e, glob_match-plain p p h, str_eq_refl p) refl
    at_hand (n ∷ b) ns a e = rw e (rw (at_hand b (b ++ p ∷ a) a refl) (any_true (glob_match p n)))

-- A rule that is a name of plain bytes, has no slash inside and is not anchored matches the paths in
-- which a segment is that name. If it was written with a slash at its end, only segments that another
-- one follows count, so the last segment of the path does not, whatever it is.
pub name_rule_matches :
    (r : IgnoreRule) (rel : Str)
    → All IsPlain r.pattern
    → r.has_slash ≡ false
    → r.anchored ≡ false
    → (rule_matches r rel (split b'/' rel) ≡ true)
      ↔ (Has r.pattern (if r.dir_only then init (split b'/' rel) else split b'/' rel))
name_rule_matches r rel h slashless floating =
    rw (rule_matches-any r slashless floating rel) (any_match-Has r.pattern _ h)
