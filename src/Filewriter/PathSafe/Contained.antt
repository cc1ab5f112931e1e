-- ===== src/Filewriter/PathSafe/Contained.antt =====
-- Containment in internal/filewriter/pathsafe.go, whatever the operating system answers.
use go_mcp_gateway.Common.{
  ◌≡◌, ◌⊎◌, inl, inr, refl, sym, ◌∙◌, subst, List, [], ◌∷◌, ◌++◌, reverse, Bool, true, false, All,
  Bool-cases,
}
use go_mcp_gateway.Common.Text.{
  Str, str_eq, str_eq→≡, has_prefix→append, join, is_empty, trim_space, to_lower,
}
use go_mcp_gateway.Filewriter.Types.{WriteError, Result, ok, ◌>>=◌, >>=-eq-ok}
use go_mcp_gateway.Filewriter.FilePath.{slash, is_abs, elements, render, clean, join_path, ext}
use go_mcp_gateway.Filewriter.FilePath.Elements.{IsNormal, elements-IsNormal, All-reverse}
use go_mcp_gateway.Filewriter.PathSafe.{
  Host, PathValidator, is_binary, relative, contains_path, or_traversal, probe, rejoin, require,
  resolve_within, check_name, resolve,
}
use go_mcp_gateway.Filewriter.PathSafe.Confined.{IsConfined, relative-IsConfined}

-- The root or what lies beneath it, as a rooted path with no `.`, `..` or empty element.
pub record IsInside (root p : Str) : Type 0 where
  pub beneath : (p ≡ root) ⊎ ((rest : Str) × (p ≡ (root ++ slash ∷ []) ++ rest))
  pub entries : List Str
  pub rooted : p ≡ render true entries
  pub normal : All IsNormal entries

beneath_of_contains :
    (v : PathValidator) (p : Str)
    → contains_path v p ≡ true
    → (p ≡ v.root) ⊎ ((rest : Str) × (p ≡ (v.root ++ slash ∷ []) ++ rest))
unfolding contains_path
beneath_of_contains v p h = elim (Bool-cases (str_eq p v.root)) [
  | inl e ↦ inl (str_eq→≡ p v.root e)
  | inr e ↦ inr (has_prefix→append p (v.root ++ slash ∷ []) (rw e at h))
]

is_abs-append : (s t : Str) → is_abs s ≡ true → is_abs (s ++ t) ≡ true
unfolding is_abs
is_abs-append [] t h = absurd (cc h)
is_abs-append (c ∷ s) t h = h

is_abs_of_contains :
    (v : PathValidator) (p : Str)
    → is_abs v.root ≡ true
    → contains_path v p ≡ true
    → is_abs p ≡ true
is_abs_of_contains v p a h = elim (beneath_of_contains v p h) [
  | inl e ↦ rw e a
  | inr (rest, e) ↦ rw e (is_abs-append _ rest (is_abs-append v.root _ a))
]

is_abs-join : (p : Str) (ps : List Str) → is_abs p ≡ true → is_abs (join slash (p ∷ ps)) ≡ true
unfolding join
is_abs-join p [] h = h
is_abs-join p (q ∷ ps) h = is_abs-append p _ h

clean-rooted :
    (p : Str) → is_abs p ≡ true → (es : List Str) × (clean p ≡ render true es) × All IsNormal es
unfolding clean
clean-rooted p h = (reverse (elements true p), rw h, All-reverse IsNormal _ (elements-IsNormal p))

require-true : (b : Bool) (path p q : Str) → require b path p ≡ ok q → (b ≡ true) × (q ≡ p)
require-true true path p q h = (refl, cc h)
require-true false path p q h = absurd (cc h)

resolve_within-IsInside :
    (v : PathValidator) (h : Host) (r p : Str)
    → is_abs v.root ≡ true
    → resolve_within v h r ≡ ok p
    → IsInside v.root p
unfolding resolve_within rejoin
resolve_within-IsInside v h r p a e =
    let ((ancestor, missing), e₁, f₁) =
      >>=-eq-ok (or_traversal r (probe h [] (elements true (join_path v.root r)))) _ e in
    let (target, e₂, f₂) = >>=-eq-ok (or_traversal r (h.eval_symlinks ancestor)) _ f₁ in
    let (resolved, e₃, f₃) = >>=-eq-ok (require (contains_path v target) r target) _ f₂ in
    let (inside, same) = require-true _ r _ p f₃ in
    let (within, same_target) = require-true _ r _ resolved e₃ in
    let rooted_join = is_abs-join resolved (reverse missing) (
      is_abs_of_contains v resolved a
        (subst (λ q. contains_path v q ≡ true) (sym same_target) within)) in
    let (es, is_clean, ns) = clean-rooted (join slash (resolved ∷ reverse missing)) rooted_join in
    record {
      beneath = beneath_of_contains v p (subst (λ q. contains_path v q ≡ true) (sym same) inside);
      entries = es;
      rooted = same ∙ is_clean;
      normal = ns;
    }

check_name_inv :
    (v : PathValidator) (r p r₂ p₂ : Str)
    → check_name v r p ≡ ok (r₂, p₂)
    → (r₂ ≡ r)
      × (p₂ ≡ p)
      × (is_binary v.binary_ext (to_lower (ext r)) ≡ false)
      × (v.ignores r ≡ false)
unfolding check_name
check_name_inv v r p r₂ p₂ h = elim (Bool-cases (is_binary v.binary_ext (to_lower (ext r)))) [
  | inl b ↦ absurd (cc (rw b at h))
  | inr b ↦ elim (Bool-cases (v.ignores r)) [
    | inl i ↦ absurd (cc (rw (b, i) at h))
    | inr i ↦
        let e : ◌≡◌ {A = Result WriteError (Str × Str)} (ok (r, p)) (ok (r₂, p₂)) =
          rw (b, i) at h in
        (cc, cc, b, i)
  ]
]

-- Whatever the operating system answers, a path that `resolve` accepts under an absolute root is a
-- relative path that never climbs, and a target that is the root or lies beneath it and has no
-- `..` left; its extension is not a binary one and the ignore rules do not match it.
pub resolve-IsInside :
    (v : PathValidator) (h : Host) (raw r p : Str)
    → is_abs v.root ≡ true
    → resolve v h raw ≡ ok (r, p)
    → IsConfined r
      × IsInside v.root p
      × (is_binary v.binary_ext (to_lower (ext r)) ≡ false)
      × (v.ignores r ≡ false)
unfolding resolve
resolve-IsInside v h raw r p a e = elim (Bool-cases (is_empty (trim_space raw))) [
  | inl b ↦ absurd (cc (rw b at e))
  | inr b ↦
      let chain : (relative v raw >>= λ q. resolve_within v h q >>= λ abs. check_name v q abs)
          ≡ ok (r, p) =
        rw b at e in
      let (q, e₁, f₁) = >>=-eq-ok (relative v raw) _ chain in
      let (t, e₂, f₂) = >>=-eq-ok (resolve_within v h q) _ f₁ in
      let (same, same_target, named, kept) = check_name_inv v q t r p f₂ in
      rw (same, same_target)
        (relative-IsConfined v raw q e₁, resolve_within-IsInside v h q t a e₂, named, kept)
]
