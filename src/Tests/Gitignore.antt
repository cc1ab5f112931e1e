-- ===== src/Tests/Gitignore.antt =====
-- internal/filewriter/gitignore.go on concrete inputs.
use go_mcp_gateway.Common.{
  ◌≡◌, refl, ◌⊎◌, ◌↔◌, arith, true, false, not, some, [], ◌∷◌, ◌++◌, All, if◌then◌else◌, Has,
}
use go_mcp_gateway.Common.Text.{
  codes, contains, has_prefix, split, join, str_eq, trim_left, trim_right, trim_space,
}
use go_mcp_gateway.Filewriter.Glob.{
  lex, lex_plain, lex_lo, lex_hi, tokens, fits, in_ranges, match_chunk, chunks, seek, match_chunks,
  match_tokens, file_match, split_stars, find, walk, walk_first, has_suffix, glob_match,
}
use go_mcp_gateway.Filewriter.Glob.Spans.{suffix_missed}
use go_mcp_gateway.Filewriter.Gitignore.{
  IgnoreRule, contents, drop_last, rule_of, parse_line, parse_lines, load_ignore_list, ancestors,
  candidates, any_match, candidate_matches, any_candidate, rule_matches, scan_rules, is_ignored,
}
use go_mcp_gateway.Filewriter.Gitignore.Ignores.{Decides, init, last_rule_wins, name_rule_matches}

source_takes : file_match (codes "*.g[n-p]") (codes "x.go") ≡ true
unfolding file_match tokens lex lex_plain lex_lo lex_hi match_tokens chunks match_chunk match_chunks
    seek fits in_ranges contains has_prefix
source_takes = refl

star_stops : file_match (codes "*.go") (codes "a/x.go") ≡ false
unfolding file_match tokens lex lex_plain match_tokens chunks match_chunk match_chunks seek fits
    contains has_prefix
star_stops = refl

trailing_double : contains (codes "a/**/c**") (codes "**") ≡ true
unfolding contains has_prefix
trailing_double = refl

trailing_last : has_suffix (codes "a/**/c**") (codes "**") ≡ true
unfolding has_suffix str_eq
trailing_last = refl

closed_takes : glob_match (codes "a/**/c") (codes "a/x/y/c") ≡ true
unfolding glob_match contains has_prefix has_suffix str_eq split_stars walk_first walk find
closed_takes = refl

suffix_missed_example :
    glob_match (codes "**/" ++ codes "b") (codes "a/c" ++ (b'/' ∷ codes "b" ++ codes "/b")) ≡ false
suffix_missed_example =
    suffix_missed (codes "b") (codes "a/c") (codes "/b") (omega arith) (λ e. cc e)

abbrev build_rule : IgnoreRule
build_rule = record {
  pattern = codes "build";
  negate = false;
  anchored = false;
  dir_only = true;
  has_slash = false;
}

abbrev keep_rule : IgnoreRule
keep_rule = record {
  pattern = codes "src/build/*.go";
  negate = true;
  anchored = true;
  dir_only = false;
  has_slash = true;
}

-- The lines of a file, with a comment and a blank line between them.
rules_read :
    load_ignore_list (contents (codes "build/\n# no\n\n!/src/build/*.go\n"))
    ≡ some (build_rule ∷ keep_rule ∷ [])
unfolding load_ignore_list parse_lines parse_line rule_of trim_space trim_left trim_right has_prefix
    has_suffix str_eq drop_last contains split
rules_read = refl

rules_apply :
    (is_ignored (build_rule ∷ keep_rule ∷ []) (codes "src/build/x.o") ≡ true)
    × (is_ignored (build_rule ∷ keep_rule ∷ []) (codes "src/build/x.go") ≡ false)
    × (is_ignored (build_rule ∷ keep_rule ∷ []) (codes "src/build") ≡ false)
unfolding is_ignored scan_rules rule_matches candidates ancestors any_candidate candidate_matches
    any_match glob_match contains split join
rules_apply = (refl, refl, refl)

last_rule_wins_example :
    ((d : Decides
        (build_rule ∷ keep_rule ∷ [])
        (codes "src/build/x.go")
        (split b'/' (codes "src/build/x.go")))
      × (is_ignored (build_rule ∷ keep_rule ∷ []) (codes "src/build/x.go") ≡ not d.rule.negate))
    ⊎ (All
          (λ r.
            rule_matches r (codes "src/build/x.go") (split b'/' (codes "src/build/x.go")) ≡ false)
          (build_rule ∷ keep_rule ∷ [])
        × (is_ignored (build_rule ∷ keep_rule ∷ []) (codes "src/build/x.go") ≡ false))
last_rule_wins_example = last_rule_wins (build_rule ∷ keep_rule ∷ []) (codes "src/build/x.go")

name_rule_matches_example :
    (rule_matches build_rule (codes "src/build/x.o") (split b'/' (codes "src/build/x.o")) ≡ true)
    ↔ (Has (codes "build") (
        if true
        then init (split b'/' (codes "src/build/x.o"))
        else split b'/' (codes "src/build/x.o")))
name_rule_matches_example =
    name_rule_matches build_rule (codes "src/build/x.o") (omega arith) refl refl
