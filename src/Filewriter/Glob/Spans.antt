-- ===== src/Filewriter/Glob/Spans.antt =====
-- Patterns with `**`, in `globMatch` of internal/filewriter/gitignore.go.
use go_mcp_gateway.Common.{
  ℕ, ◌≤◌, ◌≡◌, ◌≢◌, refl, sym, ap, ◌∙◌, subst, ◌⊎◌, inl, inr, ◌↔◌, arith, ◌||◌, true, false,
  Bool-cases, some, Option-cases, List, [], ◌∷◌, ◌++◌, append_assoc, length, length-append, drop,
  drop-length,
}
use go_mcp_gateway.Common.Text.{
  Str, codes, is_empty, contains, has_prefix, has_prefix-append, has_prefix→append, Without, str_eq,
}
use go_mcp_gateway.Filewriter.Glob.{split_stars, find, walk, walk_first, has_suffix, glob_match}

-- `name` holds the parts one behind another, with anything in front of each, and ends in `tail`.
abbrev pub InOrder : List Str → Str → Str → Type 0
InOrder [] name tail = name ≡ tail
InOrder (part ∷ parts) name tail =
    (gap : Str) × (rest : Str) × (name ≡ gap ++ part ++ rest) × InOrder parts rest tail

-- The first part opens the name.
abbrev pub Spans : List Str → Str → Str → Type 0
Spans [] name tail = name ≡ tail
Spans (part ∷ parts) name tail = (rest : Str) × (name ≡ part ++ rest) × InOrder parts rest tail

-- `r` is what is left of `s` behind some text.
abbrev Ends : Str → Str → Type 0
Ends r s = (u : Str) × (s ≡ u ++ r)

prefix-drop : (s p : Str) → has_prefix s p ≡ true → s ≡ p ++ drop (length p) s
prefix-drop s p h =
    let (r, e) = has_prefix→append s p h in
    e ∙ ap (λ t. p ++ t) (sym (ap (drop (length p)) e ∙ drop-length p r))

find_sound : (part s r : Str) → find part s ≡ some r → (gap : Str) × (s ≡ gap ++ part ++ r)
unfolding find
find_sound [] [] r h = ([], cc h)
find_sound (c ∷ part) [] r h = absurd (cc h)
find_sound part (d ∷ s) r h = elim (Bool-cases (has_prefix (d ∷ s) part)) [
  | inl e ↦
      let same : drop (length part) (d ∷ s) ≡ r = cc (rw (e, find) at h) in
      ([], subst (λ t. d ∷ s ≡ part ++ t) same (prefix-drop (d ∷ s) part e))
  | inr e ↦ let (gap, k) = find_sound part s r (rw (e, find) at h) in (d ∷ gap, ap (λ t. d ∷ t) k)
]

-- Of two ways to cut a text, the one that cuts earlier leaves more.
earlier : (xs ys r t : Str) → xs ++ r ≡ ys ++ t → length xs ≤ length ys → Ends t r
earlier [] ys r t h le = (ys, h)
earlier (x ∷ xs) [] r t h le = absurd (omega arith)
earlier (x ∷ xs) (y ∷ ys) r t h le = earlier xs ys r t (cc h) (omega arith)

find-here : (part s : Str) → has_prefix s part ≡ true → find part s ≡ some (drop (length part) s)
unfolding find has_prefix
find-here [] [] h = refl
find-here (c ∷ part) [] h = absurd (cc h)
find-here part (d ∷ s) h = rw h refl

-- The first occurrence leaves all that any other one leaves.
find-leftmost : (part gap t : Str) → (r : Str) × (find part (gap ++ part ++ t) ≡ some r) × Ends t r
unfolding find
find-leftmost part [] t = (
  t,
  find-here part (part ++ t) (has_prefix-append part t) ∙ ap some (drop-length part t),
  ([], refl),
)
find-leftmost part (d ∷ gap) t = elim (Bool-cases (has_prefix (d ∷ gap ++ part ++ t) part)) [
  | inl e ↦
      let s : Str = d ∷ gap ++ part ++ t in
      (
        drop (length part) s,
        find-here part s e,
        earlier part (d ∷ gap ++ part) (drop (length part) s) t (sym (prefix-drop s part e))
            (omega (arith, length-append gap part)),
      )
  | inr e ↦ let (r, k, x) = find-leftmost part gap t in (r, rw (e, find) k, x)
]

walk_sound : (parts : List Str) (s r : Str) → walk parts s ≡ some r → InOrder parts s r
unfolding walk
walk_sound [] s r h = cc h
walk_sound ([] ∷ parts) s r h = ([], s, refl, walk_sound parts s r h)
walk_sound ((c ∷ part) ∷ parts) s r h = elim (Option-cases (find (c ∷ part) s)) [
  | inl e ↦ absurd (cc (rw (e, walk) at h))
  | inr (t, e) ↦
      let (gap, k) = find_sound (c ∷ part) s t e in
      (gap, t, k, walk_sound parts t r (rw (e, walk) at h))
]

regroup :
    (u gap part rest : Str) {s : Str}
    → s ≡ gap ++ part ++ rest
    → u ++ s ≡ (u ++ gap) ++ part ++ rest
regroup u gap part rest e =
    ap (λ x. u ++ x) e
    ∙ sym (append_assoc u (gap ++ part) rest)
    ∙ ap (λ x. x ++ rest) (sym (append_assoc u gap part))

-- Taking each first occurrence finds the parts if any way does, and leaves the most text; more text
-- in front does not hurt.
walk_complete :
    (parts : List Str) (u s t : Str)
    → InOrder parts s t
    → (r : Str) × (walk parts (u ++ s) ≡ some r) × Ends t r
unfolding walk
walk_complete [] u s t h = (u ++ s, refl, (u, ap (λ x. u ++ x) h))
walk_complete ([] ∷ parts) u s t (gap, rest, e, k) =
    let (r, w, x) = walk_complete parts ((u ++ gap) ++ []) rest t k in
    (r, ap (walk parts) (regroup u gap [] rest e) ∙ w, x)
walk_complete ((c ∷ part) ∷ parts) u s t (gap, rest, e, k) =
    let (r₁, found, (v, cut)) = find-leftmost (c ∷ part) (u ++ gap) rest in
    let (r, w, x) = walk_complete parts v rest t k in
    let here : find (c ∷ part) (u ++ s) ≡ some r₁ =
      ap (find (c ∷ part)) (regroup u gap (c ∷ part) rest e) ∙ found in
    (r, rw (here, walk) (ap (walk parts) cut ∙ w), x)

walk_first_sound : (parts : List Str) (s r : Str) → walk_first parts s ≡ some r → Spans parts s r
unfolding walk_first
walk_first_sound [] s r h = cc h
walk_first_sound (part ∷ parts) s r h = elim (Bool-cases (has_prefix s part)) [
  | inl e ↦
      (drop (length part) s, prefix-drop s part e, walk_sound parts _ r (rw (e, walk_first) at h))
  | inr e ↦ absurd (cc (rw (e, walk_first) at h))
]

walk_first_complete :
    (parts : List Str) (s t : Str) → Spans parts s t → (r : Str) × (walk_first parts s ≡ some r)
unfolding walk_first
walk_first_complete [] s t h = (s, refl)
walk_first_complete (part ∷ parts) s t (rest, e, k) =
    let (r, w, x) = walk_complete parts [] rest t k in
    let opens : has_prefix s part ≡ true = rw e (has_prefix-append part rest) in
    let left : drop (length part) s ≡ rest = ap (drop (length part)) e ∙ drop-length part rest in
    (r, rw (opens, walk_first) (ap (walk parts) left ∙ w))

glob_match_lem :
    (pattern name : Str)
    → contains pattern (codes "**") ≡ true
    → glob_match pattern name ≡ true
    → (tail : Str) × Spans (split_stars pattern) name tail
      × ((has_suffix pattern (codes "**") ≡ true) ⊎ (tail ≡ []))
unfolding glob_match
glob_match_lem pattern name double h = elim (Option-cases (walk_first (split_stars pattern) name)) [
  | inl e ↦ absurd (cc (rw (double, e, glob_match) at h))
  | inr (r, e) ↦ (
    r,
    walk_first_sound (split_stars pattern) name r e,
    last_part r (rw (double, e, glob_match) at h),
  )
]
  where
    last_part :
        (r : Str)
        → (has_suffix pattern (codes "**") || is_empty r) ≡ true
        → (has_suffix pattern (codes "**") ≡ true) ⊎ (r ≡ [])
    last_part [] k = inr refl
    last_part (c ∷ r) k = inl (ground (arith, k))

-- A pattern that ends with `**` matches exactly the names that open with its first part and hold
-- its other parts in order: taking each first occurrence of a part misses none.
pub glob_match_trailing :
    (pattern name : Str)
    → contains pattern (codes "**") ≡ true
    → has_suffix pattern (codes "**") ≡ true
    → (glob_match pattern name ≡ true) ↔ ((tail : Str) × Spans (split_stars pattern) name tail)
unfolding glob_match
glob_match_trailing pattern name double last = (λ h. forth h, λ x. back x)
  where
    forth : glob_match pattern name ≡ true → (tail : Str) × Spans (split_stars pattern) name tail
    forth h = let (tail, x, _) = glob_match_lem pattern name double h in (tail, x)

    back : (tail : Str) × Spans (split_stars pattern) name tail → glob_match pattern name ≡ true
    back (tail, x) =
        let (r, e) = walk_first_complete (split_stars pattern) name tail x in
        rw (double, e, last, glob_match) refl

-- A pattern with `**` that ends otherwise matches only names that open with its first part, hold
-- its other parts in order and end with the last one.
pub glob_match_closed :
    (pattern name : Str)
    → contains pattern (codes "**") ≡ true
    → has_suffix pattern (codes "**") ≡ false
    → glob_match pattern name ≡ true
    → Spans (split_stars pattern) name []
glob_match_closed pattern name double last h =
    let (tail, x, k) = glob_match_lem pattern name double h in closed tail x k
  where
    closed :
        (tail : Str)
        → Spans (split_stars pattern) name tail
        → (has_suffix pattern (codes "**") ≡ true) ⊎ (tail ≡ [])
        → Spans (split_stars pattern) name []
    closed tail x (inl e) = absurd (cc (e, last))
    closed tail x (inr e) = subst (Spans (split_stars pattern) name) e x

split_stars-alone : (s : Str) → Without b'*' s → split_stars s ≡ s ∷ []
unfolding split_stars
split_stars-alone [] h = refl
split_stars-alone (c ∷ []) h = refl
split_stars-alone (c ∷ d ∷ s) h = ground (arith, split_stars-alone (d ∷ s) h.1)

has_suffix-stars : (s : Str) → Without b'*' s → has_suffix s (codes "**") ≡ false
unfolding has_suffix str_eq
has_suffix-stars [] h = refl
has_suffix-stars (c ∷ s) h = ground (arith, has_suffix-stars s h.1)

not_empty-append : (u : Str) (c : ℕ) (t : Str) → is_empty (u ++ c ∷ t) ≡ false
not_empty-append [] c t = refl
not_empty-append (d ∷ u) c t = refl

-- `**/name`, for a name without `*`, does not match a path in which `/name` stands anywhere before
-- the end, even if it stands at the end too: only the first place is tried.
pub suffix_missed :
    (name dir rest : Str)
    → Without b'*' name
    → rest ≢ []
    → glob_match (codes "**/" ++ name) (dir ++ (b'/' ∷ name ++ rest)) ≡ false
unfolding glob_match contains has_prefix split_stars walk_first walk has_suffix str_eq
suffix_missed name dir [] h ne = absurd (ne refl)
suffix_missed name dir (c ∷ rest) h ne =
    let (r, found, (u, cut)) = find-leftmost (b'/' ∷ name) dir (c ∷ rest) in
    let first : find (b'/' ∷ name) (dir ++ (b'/' ∷ name ++ c ∷ rest)) ≡ some r =
      ap (find (b'/' ∷ name)) (sym (append_assoc dir (b'/' ∷ name) (c ∷ rest))) ∙ found in
    let left : is_empty r ≡ false = ap is_empty cut ∙ not_empty-append u c rest in
    rw (split_stars-alone (b'/' ∷ name) (omega arith, h), first, has_suffix-stars name h, left) refl
