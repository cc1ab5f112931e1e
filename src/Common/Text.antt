-- ===== src/Common/Text.antt =====
-- Text that the program walks: a Go `string` as the list of its bytes. `to_lower` and `trim_space`
-- are `strings.ToLower` and `strings.TrimSpace` on ASCII; bytes from 128 on are left alone.
use Prim.Native.Nat.{ℕ, ◌+◌}
use Prim.Native.Char.{code}
use Prim.Native.String.{String}
use mathlib.Core.Path.{◌≡◌, refl, ap, ◌∙◌, subst}
use mathlib.Core.Logic.{◌↔◌, ◌≢◌, inl, inr}
use mathlib.Core.Bool.{Bool, true, false, ◌&&◌, ◌||◌}
use mathlib.Core.List.{List, [], ◌∷◌, ◌++◌, map}
use native.Mathlib.Omega.{arith}
use go_mcp_gateway.Common.Tests.{leb, ◌==◌, if◌then◌else◌, Bool-cases}
use go_mcp_gateway.Common.Lists.{length, drop, drop-length, All}

abbrev pub Str : Type 0
Str = List ℕ

-- The bytes of an ASCII literal.
abbrev pub codes : String → Str
codes String.[] = []
codes (String.◌∷◌ c s) = code c ∷ codes s

unfoldable pub str_eq : Str → Str → Bool
str_eq [] [] = true
str_eq [] (d ∷ t) = false
str_eq (c ∷ s) [] = false
str_eq (c ∷ s) (d ∷ t) = c == d && str_eq s t

pub str_eq_refl : (s : Str) → str_eq s s ≡ true
unfolding str_eq
str_eq_refl [] = refl
str_eq_refl (c ∷ s) = ground (arith, str_eq_refl s)

pub str_eq→≡ : (s t : Str) → str_eq s t ≡ true → s ≡ t
unfolding str_eq
str_eq→≡ [] [] h = refl
str_eq→≡ [] (d ∷ t) h = ground arith
str_eq→≡ (c ∷ s) [] h = ground arith
str_eq→≡ (c ∷ s) (d ∷ t) h = ground (arith, str_eq→≡ s t)

pub str_eq_sym : (s t : Str) → str_eq s t ≡ false → str_eq t s ≡ false
str_eq_sym s t h = elim (Bool-cases (str_eq t s)) [
  | inl e ↦
      let clash : str_eq s s ≡ false = subst (λ x. str_eq s x ≡ false) (str_eq→≡ t s e) h in
      absurd (cc (str_eq_refl s, clash))
  | inr e ↦ e
]

pub str_eq_iff : (s t : Str) → (str_eq s t ≡ true) ↔ (s ≡ t)
str_eq_iff s t = (str_eq→≡ s t, λ e. subst_eq e)
  where
    subst_eq : s ≡ t → str_eq s t ≡ true
    subst_eq e = ground (arith, str_eq_refl s)

unfoldable pub to_lower_byte : ℕ → ℕ
to_lower_byte c = if leb b'A' c && leb c b'Z' then c + 32 else c

unfoldable pub to_lower : Str → Str
unfolding to_lower_byte
to_lower = map to_lower_byte

abbrev pub is_space : ℕ → Bool
is_space c = c == b' ' || (leb 9 c && leb c 13)

unfoldable pub trim_left : Str → Str
trim_left [] = []
trim_left (c ∷ s) = if is_space c then trim_left s else c ∷ s

abbrev keep_right : ℕ → Str → Str
keep_right c [] = if is_space c then [] else c ∷ []
keep_right c (d ∷ s) = c ∷ d ∷ s

unfoldable pub trim_right : Str → Str
trim_right [] = []
trim_right (c ∷ s) = keep_right c (trim_right s)

unfoldable pub trim_space : Str → Str
unfolding trim_left trim_right
trim_space s = trim_right (trim_left s)

unfoldable pub has_prefix : Str → Str → Bool
has_prefix s [] = true
has_prefix [] (p ∷ ps) = false
has_prefix (c ∷ s) (p ∷ ps) = c == p && has_prefix s ps

unfoldable pub trim_prefix : Str → Str → Str
unfolding has_prefix
trim_prefix s p = if has_prefix s p then drop (length p) s else s

pub has_prefix-append : (p s : Str) → has_prefix (p ++ s) p ≡ true
unfolding has_prefix
has_prefix-append [] s = refl
has_prefix-append (c ∷ p) s = ground (arith, has_prefix-append p s)

pub has_prefix→append : (s p : Str) → has_prefix s p ≡ true → (r : Str) × (s ≡ p ++ r)
unfolding has_prefix
has_prefix→append s [] h = (s, refl)
has_prefix→append [] (c ∷ p) h = ([], ground arith)
has_prefix→append (d ∷ s) (c ∷ p) h =
    let (r, e) = has_prefix→append s p (ground arith) in (r, ground arith)

pub trim_prefix-append : (p s : Str) → trim_prefix (p ++ s) p ≡ s
unfolding trim_prefix
trim_prefix-append p s = ground (arith, has_prefix-append p s, drop-length p s)

-- `strings.Contains`.
unfoldable pub contains : Str → Str → Bool
unfolding has_prefix
contains [] t = has_prefix [] t
contains (c ∷ s) t = has_prefix (c ∷ s) t || contains s t

abbrev pub push_first : ℕ → List Str → List Str
push_first c [] = (c ∷ []) ∷ []
push_first c (l ∷ ls) = (c ∷ l) ∷ ls

-- `strings.Split` at a separator of one byte.
unfoldable pub split : ℕ → Str → List Str
split sep [] = [] ∷ []
split sep (c ∷ s) = let rest = split sep s in if c == sep then [] ∷ rest else push_first c rest

-- `strings.Join` with a separator of one byte.
unfoldable pub join : ℕ → List Str → Str
join sep [] = []
join sep (l ∷ []) = l
join sep (l ∷ m ∷ ls) = l ++ sep ∷ join sep (m ∷ ls)

abbrev pub Without : ℕ → Str → Type 0
Without sep = All (λ c. c ≢ sep)

split_line : (sep : ℕ) (l : Str) → Without sep l → split sep l ≡ l ∷ []
unfolding split
split_line sep [] h = refl
split_line sep (c ∷ l) h = ground (arith, split_line sep l h.1)

pub split-append :
    (sep : ℕ) (l s : Str) → Without sep l → split sep (l ++ sep ∷ s) ≡ l ∷ split sep s
unfolding split
split-append sep [] s h = ground arith
split-append sep (c ∷ l) s h = ground (arith, split-append sep l s h.1)

-- Lines that do not hold the separator are found again.
pub split-join :
    (sep : ℕ) (l : Str) (ls : List Str)
    → All (Without sep) (l ∷ ls)
    → split sep (join sep (l ∷ ls)) ≡ l ∷ ls
unfolding join
split-join sep l [] h = split_line sep l h.0
split-join sep l (m ∷ ls) h =
    split-append sep l (join sep (m ∷ ls)) h.0 ∙ ap (◌∷◌ l) (split-join sep m ls h.1)

abbrev pub is_empty : Str → Bool
is_empty [] = true
is_empty (c ∷ s) = false
