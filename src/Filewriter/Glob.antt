-- ===== src/Filewriter/Glob.antt =====
-- `globMatch` of internal/filewriter/gitignore.go, with the part of `filepath.Match` that it calls
-- on Unix. Text is a list of bytes: a rune above 127 counts as its bytes.
pub mod Matches
pub mod Spans
use go_mcp_gateway.Common.{
  ℕ, ◌==◌, leb, Bool, true, false, not, ◌&&◌, ◌||◌, Option, none, some, List, [], ◌∷◌, reverse,
  if◌then◌else◌, length, drop,
}
use go_mcp_gateway.Common.Text.{Str, codes, is_empty, has_prefix, contains, push_first, str_eq}

-- A pattern of `filepath.Match`: `*`, `?`, a byte that stands for itself, and `[^lo-hi…]`.
pub data Token : Type 0 where
  star : Token
  any : Token
  lit : ℕ → Token
  class : Bool → List (ℕ × ℕ) → Token

-- Where the reader of a pattern is: outside a class, after a backslash, after `[`, and in a class
-- before and after the two ends of a range.
pub data Mode : Type 0 where
  plain : Mode
  plain_escape : Mode
  opened : Mode
  lo : Bool → List (ℕ × ℕ) → Mode
  lo_escape : Bool → List (ℕ × ℕ) → Mode
  after_lo : Bool → List (ℕ × ℕ) → ℕ → Mode
  hi : Bool → List (ℕ × ℕ) → ℕ → Mode
  hi_escape : Bool → List (ℕ × ℕ) → ℕ → Mode

-- `bad` is ErrBadPattern.
pub data Lexed : Type 0 where
  bad : Lexed
  shift : Mode → Lexed
  emit : Token → Lexed

unfoldable pub lex_plain : ℕ → Lexed
lex_plain c =
    if c == b'*'
    then emit star
    else if c == b'?'
    then emit any
    else if c == b'['
    then shift opened
    else if c == b'\\'
    then shift plain_escape
    else emit (lit c)

-- A class is closed only after its first range.
unfoldable pub lex_lo : Bool → List (ℕ × ℕ) → ℕ → Lexed
lex_lo neg [] c =
    if c == b'-' || c == b']'
    then bad
    else if c == b'\\'
    then shift (lo_escape neg [])
    else shift (after_lo neg [] c)
lex_lo neg (r ∷ rs) c =
    if c == b']'
    then emit (class neg (r ∷ rs))
    else if c == b'-'
    then bad
    else if c == b'\\'
    then shift (lo_escape neg (r ∷ rs))
    else shift (after_lo neg (r ∷ rs) c)

unfoldable pub lex_hi : Bool → List (ℕ × ℕ) → ℕ → ℕ → Lexed
lex_hi neg rs x c =
    if c == b'-' || c == b']'
    then bad
    else if c == b'\\'
    then shift (hi_escape neg rs x)
    else shift (lo neg ((x, c) ∷ rs))

unfoldable pub lex : Mode → ℕ → Lexed
unfolding lex_plain lex_lo lex_hi
lex plain c = lex_plain c
lex plain_escape c = emit (lit c)
lex opened c = if c == b'^' then shift (lo true []) else lex_lo false [] c
lex (lo neg rs) c = lex_lo neg rs c
lex (lo_escape neg rs) c = shift (after_lo neg rs c)
lex (after_lo neg rs x) c = if c == b'-' then shift (hi neg rs x) else lex_lo neg ((x, x) ∷ rs) c
lex (hi neg rs x) c = lex_hi neg rs x c
lex (hi_escape neg rs x) c = shift (lo neg ((x, c) ∷ rs))

-- `none` is ErrBadPattern.
unfoldable pub tokens : Mode → Str → Option (List Token)
unfolding lex
tokens plain [] = some []
tokens m [] = none
tokens m (c ∷ s) = elim (lex m c) [
  | bad ↦ none
  | shift n ↦ tokens n s
  | emit t ↦ elim (tokens plain s) [ none ↦ none | some ts ↦ some (t ∷ ts) ]
]

unfoldable pub in_ranges : ℕ → List (ℕ × ℕ) → Bool
in_ranges c [] = false
in_ranges c ((x, y) ∷ rs) = (leb x c && leb c y) || in_ranges c rs

-- Does one byte fit a token? A class also takes a slash.
unfoldable pub fits : Token → ℕ → Bool
unfolding in_ranges
fits star c = false
fits any c = not (c == b'/')
fits (lit d) c = c == d
fits (class neg rs) c = if neg then not (in_ranges c rs) else in_ranges c rs

-- `matchChunk`: what is left of the text after the tokens.
unfoldable pub match_chunk : List Token → Str → Option Str
unfolding fits
match_chunk [] name = some name
match_chunk (t ∷ ts) [] = none
match_chunk (t ∷ ts) (c ∷ name) = if fits t c then match_chunk ts name else none

abbrev after_star : List Token × List (List Token) → List Token × List (List Token)
after_star (ts, gs) = ([], ts ∷ gs)

abbrev before : Token → List Token × List (List Token) → List Token × List (List Token)
before t (ts, gs) = (t ∷ ts, gs)

-- `scanChunk`: the tokens before the first star, and the chunks behind each star.
unfoldable pub chunks : List Token → List Token × List (List Token)
chunks [] = ([], [])
chunks (star ∷ ts) = after_star (chunks ts)
chunks (any ∷ ts) = before any (chunks ts)
chunks (lit c ∷ ts) = before (lit c) (chunks ts)
chunks (class neg rs ∷ ts) = before (class neg rs) (chunks ts)

-- A match of a chunk counts unless it is the last one and leaves text over.
abbrev accepts : Bool → Option Str → Bool
accepts last none = false
accepts last (some rest) = not last || is_empty rest

-- A star in front of a chunk: the leftmost place, before the next slash, where the chunk matches.
unfoldable pub seek : Bool → List Token → Str → Option Str
unfolding match_chunk
seek last g [] = if accepts last (match_chunk g []) then match_chunk g [] else none
seek last g (c ∷ name) =
    if accepts last (match_chunk g (c ∷ name))
    then match_chunk g (c ∷ name)
    else if c == b'/'
    then none
    else seek last g name

abbrev is_nil : List (List Token) → Bool
is_nil [] = true
is_nil (g ∷ gs) = false

-- Stars in a row count as one, and there is no way back to an earlier star.
unfoldable pub match_chunks : List (List Token) → Str → Bool
unfolding seek
match_chunks [] name = is_empty name
match_chunks ([] ∷ []) name = not (contains name (codes "/"))
match_chunks ([] ∷ g ∷ gs) name = match_chunks (g ∷ gs) name
match_chunks ((t ∷ ts) ∷ gs) name = elim (seek (is_nil gs) (t ∷ ts) name) [
  | none ↦ false
  | some rest ↦ match_chunks gs rest
]

unfoldable pub match_tokens : List Token → Str → Bool
unfolding chunks match_chunk match_chunks
match_tokens ts name =
    let (first, gs) = chunks ts in
    elim (match_chunk first name) [ none ↦ false | some rest ↦ match_chunks gs rest ]

-- `ok, err := filepath.Match(pattern, name)` with `err == nil && ok`.
unfoldable pub file_match : Str → Str → Bool
unfolding tokens match_tokens
file_match pattern name = elim (tokens plain pattern) [
  | none ↦ false
  | some ts ↦ match_tokens ts name
]

-- `strings.Split(pattern, "**")`.
unfoldable pub split_stars : Str → List Str
split_stars [] = [] ∷ []
split_stars (c ∷ []) = (c ∷ []) ∷ []
split_stars (c ∷ d ∷ s) = elim (c == b'*' && d == b'*') [
  | true ↦ [] ∷ split_stars s
  | false ↦ push_first c (split_stars (d ∷ s))
]

-- `strings.Index`: the text behind the first occurrence.
unfoldable pub find : Str → Str → Option Str
find part [] = if is_empty part then some [] else none
find part (c ∷ name) =
    if has_prefix (c ∷ name) part then some (drop (length part) (c ∷ name)) else find part name

-- The parts behind the first one; what is left is `name[pos:]`.
unfoldable pub walk : List Str → Str → Option Str
unfolding find
walk [] name = some name
walk ([] ∷ parts) name = walk parts name
walk ((c ∷ part) ∷ parts) name = elim (find (c ∷ part) name) [
  | none ↦ none
  | some rest ↦ walk parts rest
]

unfoldable pub walk_first : List Str → Str → Option Str
unfolding walk
walk_first [] name = some name
walk_first (part ∷ parts) name =
    if has_prefix name part then walk parts (drop (length part) name) else none

-- `strings.HasSuffix`: one of the tails is `t`.
unfoldable pub has_suffix : Str → Str → Bool
has_suffix [] t = str_eq [] t
has_suffix (c ∷ s) t = str_eq (c ∷ s) t || has_suffix s t

unfoldable pub glob_match : Str → Str → Bool
unfolding file_match split_stars walk_first has_suffix
glob_match pattern name =
    if contains pattern (codes "**")
    then elim (walk_first (split_stars pattern) name) [
      | none ↦ false
      | some rest ↦ has_suffix pattern (codes "**") || is_empty rest
    ]
    else file_match pattern name
