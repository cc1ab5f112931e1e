-- ===== src/Tests/Filewriter.antt =====
-- internal/filewriter on concrete inputs.
use go_mcp_gateway.Common.{
  ℕ, ◌≡◌, ◌≢◌, refl, arith, some, Bool, true, false, if◌then◌else◌, List, [], ◌∷◌, map, All, ◌==◌,
}
use go_mcp_gateway.Common.Text.{
  Str, codes, split, join, str_eq, Without, to_lower, has_prefix, trim_space, trim_prefix,
  trim_right, trim_left,
}
use go_mcp_gateway.Filewriter.Types.{FileOp, write, ParseError, duplicate_path, ok, err}
use go_mcp_gateway.Filewriter.FilePath.{is_abs, clean, ext, join_path}
use go_mcp_gateway.Filewriter.Parser.{parse, closes, is_seen, fence_marker}
use go_mcp_gateway.Filewriter.Parser.Sound.{IsParsed, Distinct, parse_sound}
use go_mcp_gateway.Filewriter.Parser.RoundTrip.{
  Block, lines_of, op_of_block, IsWritten, Fresh, parse_round_trip, header,
}
use go_mcp_gateway.Filewriter.PathSafe.{
  Host, present, absent, PathValidator, relative, resolve, is_binary, escapes, resolve_within,
  contains_path,
}
use go_mcp_gateway.Filewriter.PathSafe.Confined.{IsConfined}
use go_mcp_gateway.Filewriter.PathSafe.Contained.{IsInside, resolve-IsInside}

abbrev pub answer : Str
answer = codes "ok\n```file:a.go\nx\n```\n"

abbrev pub op : FileOp
op = record { kind = write; raw_path = codes "a.go"; path = codes "a.go"; content = codes "x" }

pub answer_parses : parse answer ≡ ok (op ∷ [])
unfolding parse split has_prefix trim_space trim_prefix str_eq clean join
answer_parses = refl

parse_sound_example :
    ◌≢◌ {A = List FileOp} (op ∷ []) []
    × All (IsParsed (split b'\n' answer)) (op ∷ [])
    × Distinct (op ∷ [])
parse_sound_example = parse_sound answer (op ∷ []) answer_parses

abbrev twice : Str
twice = codes "```file:a.go\nx\n```\n```file:./a.go\ny\n```\n"

abbrev refusal : ParseError
refusal = record { reason = duplicate_path; line = 4 }

twice_refused : parse twice ≡ err refusal
unfolding parse split has_prefix trim_space trim_prefix str_eq clean join
twice_refused = refl

abbrev pub validator : PathValidator
validator = record { root = codes "/w"; binary_ext = codes ".png" ∷ []; ignores = λ p. false }

-- Only the root of the worktree exists, and no link leads elsewhere.
abbrev pub host : Host
host = record {
  lstat = λ p. if str_eq p (codes "/w") then present else absent;
  eval_symlinks = λ p. some p;
}

stays : relative validator (codes "b/../a.go") ≡ ok (codes "a.go")
unfolding relative escapes str_eq is_abs clean split join has_prefix
stays = refl

resolves : resolve validator host (codes "b/../a.go") ≡ ok (codes "a.go", codes "/w/a.go")
unfolding resolve trim_space relative escapes str_eq is_abs clean split join has_prefix
    resolve_within join_path contains_path is_binary to_lower ext
resolves = refl

rooted : is_abs validator.root ≡ true
unfolding is_abs
rooted = refl

resolve-IsInside_example :
    IsConfined (codes "a.go")
    × IsInside (codes "/w") (codes "/w/a.go")
    × (is_binary validator.binary_ext (to_lower (ext (codes "a.go"))) ≡ false)
    × (validator.ignores (codes "a.go") ≡ false)
resolve-IsInside_example =
    resolve-IsInside validator host (codes "b/../a.go") (codes "a.go") (codes "/w/a.go") rooted
      resolves

abbrev lacks : ℕ → Str → Bool
lacks sep [] = true
lacks sep (c ∷ s) = if c == sep then false else lacks sep s

lacks-Without : (sep : ℕ) (s : Str) → lacks sep s ≡ true → Without sep s
lacks-Without sep [] h = tt
lacks-Without sep (c ∷ s) h = ground (arith, lacks-Without sep s)

abbrev block : Block
block = record { prose = []; is_delete = false; path = codes "a"; body = codes "x" ∷ [] }

block-IsWritten : IsWritten block
unfolding closes trim_left trim_right str_eq trim_space
block-IsWritten = record {
  prose = tt;
  plain = record { not_empty = λ e. cc e; left = refl; right = refl };
  body = (refl, tt);
}

block-Fresh : Fresh [] (block ∷ [])
unfolding Fresh is_seen
block-Fresh = (refl, tt)

block-Without : All (Without b'\n') (lines_of (block ∷ []) [])
unfolding lines_of header
block-Without = (
  lacks-Without b'\n' (header false (codes "a")) refl,
  (lacks-Without b'\n' (codes "x") refl, (lacks-Without b'\n' fence_marker refl, tt)),
)

parse_round_trip_example :
    parse (join b'\n' (lines_of (block ∷ []) [])) ≡ ok (map op_of_block (block ∷ []))
parse_round_trip_example =
    parse_round_trip (block ∷ []) [] (λ e. cc e) (block-IsWritten, tt) tt block-Fresh block-Without
