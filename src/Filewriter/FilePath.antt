-- ===== src/Filewriter/FilePath.antt =====
-- The functions of path/filepath (Unix) that internal/filewriter calls, on the elements of a path.
pub mod Elements
use go_mcp_gateway.Common.{
  ℕ, List, [], ◌∷◌, ◌++◌, reverse, Bool, true, false, ◌||◌, not, Option, none, some, ◌==◌,
  if◌then◌else◌,
}
use go_mcp_gateway.Common.Text.{Str, str_eq, split, join, is_empty, has_prefix}

abbrev pub slash : ℕ
slash = b'/'

abbrev pub dot : Str
dot = b'.' ∷ []

abbrev pub dot_dot : Str
dot_dot = b'.' ∷ b'.' ∷ []

unfoldable pub is_abs : Str → Bool
is_abs [] = false
is_abs (c ∷ s) = c == slash

-- `..` drops the element before it; one that has nothing to drop is kept in a relative path and
-- dropped in a rooted one. The last element comes first.
unfoldable pub go_up : Bool → List Str → List Str
go_up rooted [] = if rooted then [] else dot_dot ∷ []
go_up rooted (e ∷ es) = if str_eq e dot_dot then dot_dot ∷ e ∷ es else es

unfoldable pub add_element : Bool → List Str → Str → List Str
unfolding go_up
add_element rooted done e =
    if is_empty e || str_eq e dot
    then done
    else if str_eq e dot_dot
    then go_up rooted done
    else e ∷ done

unfoldable pub add_elements : Bool → List Str → List Str → List Str
add_elements rooted done [] = done
add_elements rooted done (e ∷ es) = add_elements rooted (add_element rooted done e) es

-- The elements of the cleaned path, last one first.
unfoldable pub elements : Bool → Str → List Str
elements rooted p = add_elements rooted [] (split slash p)

unfoldable pub render : Bool → List Str → Str
render true es = slash ∷ join slash es
render false [] = dot
render false (e ∷ es) = join slash (e ∷ es)

-- `filepath.Clean`.
unfoldable pub clean : Str → Str
unfolding is_abs elements add_elements add_element render
clean p = render (is_abs p) (reverse (elements (is_abs p) p))

-- `filepath.Join` of two parts; an empty part is left out.
unfoldable pub join_path : Str → Str → Str
unfolding clean
join_path p q = if is_empty p then (if is_empty q then [] else clean q) else clean (p ++ slash ∷ q)

-- One `..` for each element.
unfoldable pub ups : List Str → List Str
ups [] = []
ups (e ∷ es) = dot_dot ∷ ups es

-- The elements of `targ` seen from `base`, after what they have in common.
unfoldable pub rel_elements : List Str → List Str → List Str
rel_elements [] ts = ts
rel_elements (b ∷ bs) [] = ups (b ∷ bs)
rel_elements (b ∷ bs) (t ∷ ts) =
    let rest = rel_elements bs ts in if str_eq b t then rest else ups (b ∷ bs) ++ (t ∷ ts)

-- `filepath.Rel` of two absolute paths, which has no error.
unfoldable pub rel : Str → Str → Str
unfolding rel_elements
rel base targ =
    render false (rel_elements (reverse (elements true base)) (reverse (elements true targ)))

-- The last element, also if it is empty.
unfoldable pub last_element : List Str → Str
last_element [] = []
last_element (e ∷ []) = e
last_element (e ∷ f ∷ es) = last_element (f ∷ es)

-- From the last dot of an element on.
unfoldable pub from_dot : Str → Option Str
from_dot [] = none
from_dot (c ∷ s) = elim (from_dot s) [
  | some t ↦ some t
  | none ↦ if c == b'.' then some (c ∷ s) else none
]

-- `filepath.Ext`.
unfoldable pub ext : Str → Str
unfolding last_element from_dot
ext p = elim (from_dot (last_element (split slash p))) [ none ↦ [] | some t ↦ t ]
