-- ===== src/Filewriter/PathSafe/Confined.antt =====
-- The lexical check of internal/filewriter/pathsafe.go: no path that it lets through leaves the
-- worktree.
use go_mcp_gateway.Common.{
  ◌≡◌, ◌≢◌, refl, subst, List, [], ◌∷◌, ◌++◌, reverse, true, false, All, Bool-cases, inl, inr,
  if◌then◌else◌,
}
use go_mcp_gateway.Common.Text.{Str, str_eq, has_prefix, join}
use go_mcp_gateway.Filewriter.Types.{ok}
use go_mcp_gateway.Filewriter.FilePath.{
  slash, dot, dot_dot, is_abs, elements, render, clean, rel, rel_elements,
}
use go_mcp_gateway.Filewriter.FilePath.Elements.{
  IsNormal, IsUp, Climbs, Climbs-reverse, elements-Shape, elements-IsNormal, rel_elements-Climbs,
  All-reverse,
}
use go_mcp_gateway.Filewriter.PathSafe.{PathValidator, escapes, relative}

-- A relative path made of one or more entries: no `.`, no `..`, no empty element.
pub record IsConfined (p : Str) : Type 0 where
  pub entries : List Str
  pub path : p ≡ join slash entries
  pub some_entry : entries ≢ []
  pub normal : All IsNormal entries

escapes-dot : escapes dot ≡ true
unfolding escapes str_eq
escapes-dot = refl

escapes-climb : (es : List Str) → escapes (render false (dot_dot ∷ es)) ≡ true
unfolding escapes render join has_prefix str_eq
escapes-climb [] = refl
escapes-climb (e ∷ es) = refl

climb : (c : Str) (es : List Str) → IsUp c → escapes (render false (c ∷ es)) ≡ true
climb c es u = rw u (escapes-climb es)

-- Cleaned, a path climbs first; one that does not escape does not climb.
IsConfined-split :
    (climbs entries : List Str)
    → All IsUp climbs
    → All IsNormal entries
    → escapes (render false (climbs ++ entries)) ≡ false
    → IsConfined (render false (climbs ++ entries))
unfolding render
IsConfined-split [] [] u n h = absurd (cc (escapes-dot, h))
IsConfined-split [] (e ∷ es) u n h = record {
  entries = e ∷ es;
  path = refl;
  some_entry = λ q. cc q;
  normal = n;
}
IsConfined-split (c ∷ cs) es u n h = absurd (cc (climb c (cs ++ es) u.0, h))

IsConfined-of_Climbs :
    (es : List Str) → Climbs es → escapes (render false es) ≡ false → IsConfined (render false es)
IsConfined-of_Climbs es c h =
    rw c.shape (IsConfined-split c.climbs c.entries c.up c.normal (rw c.shape at h))

abbrev chosen : PathValidator → Str → Str
chosen v raw = if is_abs raw then rel v.root (clean raw) else clean raw

chosen-Climbs :
    (v : PathValidator) (raw : Str) → (es : List Str) × (chosen v raw ≡ render false es) × Climbs es
unfolding rel clean
chosen-Climbs v raw = elim (Bool-cases (is_abs raw)) [
  | inl a ↦ (
    rel_elements (reverse (elements true v.root)) (reverse (elements true (clean raw))),
    rw a,
    rel_elements-Climbs _ _ (All-reverse IsNormal _ (elements-IsNormal (clean raw))),
  )
  | inr a ↦ (reverse (elements false raw), rw a, Climbs-reverse false _ (elements-Shape false raw))
]

-- A path that `relative` lets through is relative and made of entries only: none of its elements is
-- `..`, `.` or empty, whether the model gave a relative path or an absolute one.
pub relative-IsConfined : (v : PathValidator) (raw r : Str) → relative v raw ≡ ok r → IsConfined r
unfolding relative
relative-IsConfined v raw r h = elim (Bool-cases (escapes (chosen v raw))) [
  | inl e ↦ absurd (cc (rw e at h))
  | inr e ↦
      let (es, same, climbs) = chosen-Climbs v raw in
      subst IsConfined (cc (rw e at h, same)) (IsConfined-of_Climbs es climbs (rw same at e))
]
