-- ===== src/Filewriter/PathSafe.antt =====
-- internal/filewriter/pathsafe.go. The operating system is a parameter: what `os.Lstat` says of a
-- path and where `filepath.EvalSymlinks` leads. `ignores` is the matcher of gitignore.go.
pub mod Confined
pub mod Contained
use go_mcp_gateway.Common.{
  ℕ, List, [], ◌∷◌, ◌++◌, reverse, map, Bool, true, false, ◌||◌, not, Option, none, some,
  if◌then◌else◌,
}
use go_mcp_gateway.Common.Text.{
  Str, codes, str_eq, has_prefix, trim_space, to_lower, join, is_empty,
}
use go_mcp_gateway.Filewriter.Types.{
  WriteReason, path_traversal, gitignored, binary_extension, WriteError, Result, ok, err, ◌>>=◌,
}
use go_mcp_gateway.Filewriter.FilePath.{
  slash, dot, dot_dot, is_abs, elements, render, clean, join_path, rel, ext,
}

unfoldable pub default_binary_extensions : List Str
default_binary_extensions = map codes (
    ".png" ∷ ".jpg" ∷ ".jpeg" ∷ ".gif" ∷ ".ico" ∷ ".pdf" ∷ ".zip" ∷ ".tar" ∷ ".gz" ∷ ".exe" ∷ ".dll"
    ∷ ".so" ∷ ".dylib" ∷ ".bin" ∷ ".woff" ∷ ".woff2" ∷ ".ttf" ∷ [])

-- What `os.Lstat` answers: an error that is no "does not exist" is `failed`.
pub data Lstat : Type 0 where
  present absent failed : Lstat

pub record Host : Type 0 where
  pub lstat : Str → Lstat
  pub eval_symlinks : Str → Option Str

pub record PathValidator : Type 0 where
  pub root : Str
  pub binary_ext : List Str
  pub ignores : Str → Bool

-- The set of extensions, lower-cased: the defaults and, trimmed, those of the configuration that
-- are not blank.
unfoldable pub add_extensions : List Str → List Str → List Str
add_extensions set [] = set
add_extensions set (e ∷ es) =
    add_extensions
      (if is_empty (to_lower (trim_space e)) then set else to_lower (trim_space e) ∷ set) es

unfoldable pub extension_set : List Str → List Str
unfolding add_extensions
extension_set configured = add_extensions (map to_lower default_binary_extensions) configured

unfoldable pub is_binary : List Str → Str → Bool
is_binary [] e = false
is_binary (x ∷ set) e = str_eq x e || is_binary set e

abbrev pub traversal {ℓ} : {A : Type ℓ} → Str → Result WriteError A
traversal path = err (record { reason = path_traversal; path = path })

-- The paths that lexically leave the worktree, or are the worktree.
unfoldable pub escapes : Str → Bool
escapes p = str_eq p dot || str_eq p dot_dot || has_prefix p (dot_dot ++ slash ∷ []) || is_abs p

-- `relative`; `filepath.Rel` has no error between two absolute paths.
unfoldable pub relative : PathValidator → Str → Result WriteError Str
relative v raw =
    let r = if is_abs raw then rel v.root (clean raw) else clean raw in
    if escapes r then traversal raw else ok r

-- The root, or what lies beneath it.
unfoldable pub contains_path : PathValidator → Str → Bool
contains_path v p = str_eq p v.root || has_prefix p (v.root ++ slash ∷ [])

-- The probing loop, over the elements of the target with the last one first: `filepath.Dir` drops
-- one, and `filepath.Base` is the one dropped. `none` if an ancestor cannot be inspected, or if
-- even the file system's root does not exist.
unfoldable pub probe : Host → List Str → List Str → Option (Str × List Str)
probe h missing [] = elim (h.lstat (render true [])) [
  | present ↦ some (render true [], missing)
  | absent ↦ none
  | failed ↦ none
]
probe h missing (e ∷ es) = elim (h.lstat (render true (reverse (e ∷ es)))) [
  | present ↦ some (render true (reverse (e ∷ es)), missing)
  | failed ↦ none
  | absent ↦ probe h (missing ++ e ∷ []) es
]

abbrev or_traversal {ℓ} : {A : Type ℓ} → Str → Option A → Result WriteError A
or_traversal path none = traversal path
or_traversal path (some a) = ok a

abbrev require : Bool → Str → Str → Result WriteError Str
require true path p = ok p
require false path p = traversal path

-- `filepath.Join` of the resolved ancestor and the missing elements, root first.
unfoldable pub rejoin : Str → List Str → Str
rejoin resolved missing = clean (join slash (resolved ∷ reverse missing))

unfoldable pub resolve_within : PathValidator → Host → Str → Result WriteError Str
unfolding probe rejoin
resolve_within v h r = do
  (ancestor, missing) ← or_traversal r (probe h [] (elements true (join_path v.root r)))
  resolved ← or_traversal r (h.eval_symlinks ancestor)
  resolved ← require (contains_path v resolved) r resolved
  require (contains_path v (rejoin resolved missing)) r (rejoin resolved missing)

abbrev reject {ℓ} : {A : Type ℓ} → WriteReason → Str → Result WriteError A
reject reason path = err (record { reason = reason; path = path })

-- The checks on the name, after containment.
unfoldable pub check_name : PathValidator → Str → Str → Result WriteError (Str × Str)
check_name v r abs =
    if is_binary v.binary_ext (to_lower (ext r))
    then reject binary_extension r
    else if v.ignores r
    then reject gitignored r
    else ok (r, abs)

-- `Resolve`: the path relative to the worktree, and the absolute one.
unfoldable pub resolve : PathValidator → Host → Str → Result WriteError (Str × Str)
unfolding check_name
resolve v h raw =
    let checked : Result WriteError (Str × Str) =
      relative v raw >>= λ r. resolve_within v h r >>= λ abs. check_name v r abs in
    if is_empty (trim_space raw) then traversal raw else checked
