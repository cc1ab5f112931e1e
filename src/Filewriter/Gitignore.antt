-- ===== src/Filewriter/Gitignore.antt =====
-- The rules of internal/filewriter/gitignore.go, on a Unix file system (`filepath.ToSlash` changes
-- nothing).
pub mod Ignores
use go_mcp_gateway.Common.{
  ℕ, ◌==◌, Bool, true, false, not, ◌||◌, Option, none, some, List, [], ◌∷◌, map, if◌then◌else◌,
  drop, length,
}
use go_mcp_gateway.Common.Text.{Str, codes, is_empty, has_prefix, contains, split, join, trim_space}
use go_mcp_gateway.Filewriter.Glob.{glob_match, has_suffix}

pub record IgnoreRule : Type 0 where
  pub pattern : Str
  pub negate : Bool
  pub anchored : Bool
  pub dir_only : Bool
  pub has_slash : Bool

-- What `os.ReadFile` answers for the file of the rules.
pub data ReadFile : Type 0 where
  contents : Str → ReadFile
  not_exist : ReadFile
  unreadable : ReadFile

-- `strings.TrimSuffix` for one byte.
unfoldable pub drop_last : Str → Str
drop_last [] = []
drop_last (c ∷ []) = []
drop_last (c ∷ d ∷ s) = c ∷ drop_last (d ∷ s)

-- The rule of a trimmed line that is no comment. `none`: nothing is left of it.
unfoldable pub rule_of : Str → Option IgnoreRule
unfolding has_prefix has_suffix drop_last
rule_of line =
    let negate = has_prefix line (codes "!") in
    let line₁ = if negate then drop 1 line else line in
    let anchored = has_prefix line₁ (codes "/") in
    let line₂ = if anchored then drop 1 line₁ else line₁ in
    let dir_only = has_suffix line₂ (codes "/") in
    let line₃ = if dir_only then drop_last line₂ else line₂ in
    if is_empty line₃
    then none
    else some (record {
      pattern = line₃;
      negate = negate;
      anchored = anchored;
      dir_only = dir_only;
      has_slash = contains line₃ (codes "/");
    })

unfoldable pub parse_line : Str → Option IgnoreRule
unfolding rule_of trim_space
parse_line raw =
    if is_empty (trim_space raw) || has_prefix (trim_space raw) (codes "#")
    then none
    else rule_of (trim_space raw)

unfoldable pub parse_lines : List Str → List IgnoreRule
unfolding parse_line
parse_lines [] = []
parse_lines (line ∷ lines) = elim (parse_line line) [
  | none ↦ parse_lines lines
  | some r ↦ r ∷ parse_lines lines
]

-- `none` is the error of a file that exists and cannot be read.
unfoldable pub load_ignore_list : ReadFile → Option (List IgnoreRule)
unfolding parse_lines
load_ignore_list (contents text) = some (parse_lines (split b'\n' text))
load_ignore_list not_exist = some []
load_ignore_list unreadable = none

-- `segments[:i]` for 1 ≤ i < len(segments).
unfoldable pub ancestors : List Str → List (List Str)
ancestors [] = []
ancestors (s ∷ []) = []
ancestors (s ∷ t ∷ segments) = (s ∷ []) ∷ map (λ a. s ∷ a) (ancestors (t ∷ segments))

unfoldable pub candidates : IgnoreRule → Str → List Str → List Str
unfolding ancestors
candidates r rel segments = if r.dir_only then map (join b'/') (ancestors segments) else rel ∷ []

unfoldable pub any_match : Str → List Str → Bool
any_match pattern [] = false
any_match pattern (n ∷ names) = glob_match pattern n || any_match pattern names

-- One candidate: as a whole, or segment by segment.
unfoldable pub candidate_matches : IgnoreRule → Str → Bool
unfolding any_match
candidate_matches r c =
    if r.has_slash || r.anchored then glob_match r.pattern c else any_match r.pattern (split b'/' c)

unfoldable pub any_candidate : IgnoreRule → List Str → Bool
unfolding candidate_matches
any_candidate r [] = false
any_candidate r (c ∷ cs) = candidate_matches r c || any_candidate r cs

unfoldable pub rule_matches : IgnoreRule → Str → List Str → Bool
unfolding candidates any_candidate
rule_matches r rel segments = any_candidate r (candidates r rel segments)

-- The loop over the rules; `ignored` is its variable.
unfoldable pub scan_rules : List IgnoreRule → Str → List Str → Bool → Bool
unfolding rule_matches
scan_rules [] rel segments ignored = ignored
scan_rules (r ∷ rules) rel segments ignored =
    scan_rules rules rel segments (if rule_matches r rel segments then not r.negate else ignored)

-- `Match`.
unfoldable pub is_ignored : List IgnoreRule → Str → Bool
unfolding scan_rules
is_ignored rules rel = scan_rules rules rel (split b'/' rel) false
