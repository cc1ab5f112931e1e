-- ===== src/Filewriter/FilePath/Elements.antt =====
-- The elements of cleaned and relative paths (path/filepath as internal/filewriter uses it).
use mathlib.Core.List.{reverse-append, reverse-cons}
use go_mcp_gateway.Common.{
  ℕ, ◌≡◌, ◌≢◌, refl, sym, ap, List, [], ◌∷◌, ◌++◌, reverse, Bool, true, false, All, All-append,
  arith, append-nil, Bool-cases, inl, inr,
}
use go_mcp_gateway.Common.Text.{Str, str_eq, str_eq_refl, split, push_first, Without, is_empty}
use go_mcp_gateway.Filewriter.FilePath.{
  slash, dot, dot_dot, go_up, add_element, add_elements, elements, ups, rel_elements,
}

-- An element that names an entry of a directory.
pub record IsNormal (e : Str) : Type 0 where
  pub not_empty : is_empty e ≡ false
  pub not_dot : str_eq e dot ≡ false
  pub not_dot_dot : str_eq e dot_dot ≡ false
  pub one : Without slash e

abbrev pub IsUp : Str → Type 0
IsUp e = e ≡ dot_dot

Without-cons :
    (sep c : ℕ) (ls : List Str)
    → c ≢ sep
    → All (Without sep) ls
    → All (Without sep) (push_first c ls)
Without-cons sep c [] h k = ((h, tt), tt)
Without-cons sep c (l ∷ ls) h k = ((h, k.0), k.1)

pub split-Without : (sep : ℕ) (s : Str) → All (Without sep) (split sep s)
unfolding split
split-Without sep [] = (tt, tt)
split-Without sep (c ∷ s) = ground (arith, split-Without sep s, Without-cons sep c (split sep s))

-- Last element first: entries, below which only `..` stands, and not that in a rooted path.
pub record Shape (rooted : Bool) (s : List Str) : Type 0 where
  pub entries : List Str
  pub climbs : List Str
  pub shape : s ≡ entries ++ climbs
  pub normal : All IsNormal entries
  pub up : All IsUp climbs
  pub inside : rooted ≡ true → climbs ≡ []

go_up-Shape_climbs :
    (rooted : Bool) (climbs : List Str)
    → All IsUp climbs
    → (rooted ≡ true → climbs ≡ [])
    → Shape rooted (go_up rooted climbs)
unfolding go_up
go_up-Shape_climbs true [] u i = record {
  entries = [];
  climbs = [];
  shape = refl;
  normal = tt;
  up = tt;
  inside = λ _. refl;
}
go_up-Shape_climbs false [] u i = record {
  entries = [];
  climbs = dot_dot ∷ [];
  shape = refl;
  normal = tt;
  up = (refl, tt);
  inside = λ e. cc;
}
go_up-Shape_climbs true (e ∷ es) u i = absurd (cc (i refl))
go_up-Shape_climbs false (e ∷ es) u i =
    rw (u.0, str_eq_refl dot_dot)
      (record {
        entries = [];
        climbs = dot_dot ∷ dot_dot ∷ es;
        shape = refl;
        normal = tt;
        up = (refl, (refl, u.1));
        inside = λ e. cc;
      })

go_up-Shape_entries :
    (rooted : Bool) (entries climbs : List Str)
    → All IsNormal entries
    → All IsUp climbs
    → (rooted ≡ true → climbs ≡ [])
    → Shape rooted (go_up rooted (entries ++ climbs))
unfolding go_up
go_up-Shape_entries rooted [] climbs n u i = go_up-Shape_climbs rooted climbs u i
go_up-Shape_entries rooted (e ∷ es) climbs n u i =
    rw n.0.not_dot_dot
      (record { entries = es; climbs = climbs; shape = refl; normal = n.1; up = u; inside = i })

go_up-Shape : (rooted : Bool) (s : List Str) → Shape rooted s → Shape rooted (go_up rooted s)
go_up-Shape rooted s v =
    rw v.shape (go_up-Shape_entries rooted v.entries v.climbs v.normal v.up v.inside)

cons-Shape :
    (rooted : Bool) (e : Str) (s : List Str) → IsNormal e → Shape rooted s → Shape rooted (e ∷ s)
cons-Shape rooted e s n v = record {
  entries = e ∷ v.entries;
  climbs = v.climbs;
  shape = ap (◌∷◌ e) v.shape;
  normal = (n, v.normal);
  up = v.up;
  inside = v.inside;
}

add_element-Shape :
    (rooted : Bool) (s : List Str) (e : Str)
    → Without slash e
    → Shape rooted s
    → Shape rooted (add_element rooted s e)
unfolding add_element
add_element-Shape rooted s e w v = elim (Bool-cases (is_empty e)) [
  | inl a ↦ rw a v
  | inr a ↦ elim (Bool-cases (str_eq e dot)) [
    | inl b ↦ rw (a, b) v
    | inr b ↦ elim (Bool-cases (str_eq e dot_dot)) [
      | inl c ↦ rw (a, b, c) (go_up-Shape rooted s v)
      | inr c ↦
          rw (a, b, c)
            (cons-Shape rooted e s (record { not_empty = a; not_dot = b; not_dot_dot = c; one = w })
              v)
    ]
  ]
]

add_elements-Shape :
    (rooted : Bool) (s es : List Str)
    → All (Without slash) es
    → Shape rooted s
    → Shape rooted (add_elements rooted s es)
unfolding add_elements
add_elements-Shape rooted s [] w v = v
add_elements-Shape rooted s (e ∷ es) w v =
    add_elements-Shape rooted (add_element rooted s e) es w.1 (add_element-Shape rooted s e w.0 v)

pub elements-Shape : (rooted : Bool) (p : Str) → Shape rooted (elements rooted p)
unfolding elements
elements-Shape rooted p =
    add_elements-Shape rooted [] (split slash p) (split-Without slash p)
      (record { entries = []; climbs = []; shape = refl; normal = tt; up = tt; inside = λ _. refl })

pub All-reverse {ℓ} : {A : Type 0} (P : A → Type ℓ) (xs : List A) → All P xs → All P (reverse xs)
All-reverse P [] h = tt
All-reverse P (x ∷ xs) h =
    rw (reverse-cons x xs) (All-append P (reverse xs) (x ∷ []) (All-reverse P xs h.1) (h.0, tt))

-- A rooted path has entries only.
pub elements-IsNormal : (p : Str) → All IsNormal (elements true p)
elements-IsNormal p =
    let v = elements-Shape true p in rw (v.shape, v.inside refl, append-nil v.entries) v.normal

-- First element first: `..` a number of times, and then entries.
pub record Climbs (es : List Str) : Type 0 where
  pub climbs : List Str
  pub entries : List Str
  pub shape : es ≡ climbs ++ entries
  pub up : All IsUp climbs
  pub normal : All IsNormal entries

pub Climbs-reverse : (rooted : Bool) (s : List Str) → Shape rooted s → Climbs (reverse s)
Climbs-reverse rooted s v = record {
  climbs = reverse v.climbs;
  entries = reverse v.entries;
  shape = rw v.shape (reverse-append v.entries v.climbs);
  up = All-reverse IsUp v.climbs v.up;
  normal = All-reverse IsNormal v.entries v.normal;
}

ups-IsUp : (es : List Str) → All IsUp (ups es)
unfolding ups
ups-IsUp [] = tt
ups-IsUp (e ∷ es) = (refl, ups-IsUp es)

pub rel_elements-Climbs : (bs ts : List Str) → All IsNormal ts → Climbs (rel_elements bs ts)
unfolding rel_elements
rel_elements-Climbs [] ts n = record {
  climbs = [];
  entries = ts;
  shape = refl;
  up = tt;
  normal = n;
}
rel_elements-Climbs (b ∷ bs) [] n = record {
  climbs = ups (b ∷ bs);
  entries = [];
  shape = sym (append-nil (ups (b ∷ bs)));
  up = ups-IsUp (b ∷ bs);
  normal = tt;
}
rel_elements-Climbs (b ∷ bs) (t ∷ ts) n = elim (Bool-cases (str_eq b t)) [
  | inl e ↦ rw e (rel_elements-Climbs bs ts n.1)
  | inr e ↦ rw e (record {
    climbs = ups (b ∷ bs);
    entries = t ∷ ts;
    shape = refl;
    up = ups-IsUp (b ∷ bs);
    normal = n;
  })
]
