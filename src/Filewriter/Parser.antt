-- ===== src/Filewriter/Parser.antt =====
-- internal/filewriter/parser.go. The index `i` of the source is here the number of lines that are
-- still to be passed over, with the 1-based number of the line that is looked at.
pub mod Sound
pub mod RoundTrip
use go_mcp_gateway.Common.{
  ℕ, zero, suc, List, [], ◌∷◌, ◌++◌, Bool, true, false, not, Option, none, some, if◌then◌else◌,
}
use go_mcp_gateway.Common.Text.{
  Str, codes, str_eq, has_prefix, trim_prefix, trim_space, split, join, is_empty,
}
use go_mcp_gateway.Filewriter.Types.{
  OpKind, write, delete, FileOp, ParseReason, no_operations, unclosed_fence, missing_path,
  duplicate_path, ParseError, Result, ok, err,
}
use go_mcp_gateway.Filewriter.FilePath.{clean}

abbrev pub fence_marker : Str
fence_marker = codes "```"

abbrev pub info_prefix_file : Str
info_prefix_file = codes "file:"

abbrev pub info_prefix_delete : Str
info_prefix_delete = codes "file-delete:"

-- `none` if the info string opens no operation block.
unfoldable pub classify_info : Str → Option (OpKind × Str)
classify_info info =
    if has_prefix info info_prefix_delete
    then some (delete, trim_space (trim_prefix info info_prefix_delete))
    else if has_prefix info info_prefix_file
    then some (write, trim_space (trim_prefix info info_prefix_file))
    else none

unfoldable pub closes : Str → Bool
closes line = str_eq (trim_space line) fence_marker

abbrev with_line : Str → Option (List Str × ℕ) → Option (List Str × ℕ)
with_line line none = none
with_line line (some (collected, close)) = some (line ∷ collected, suc close)

-- The lines up to the closing fence, and how many they are.
unfoldable pub collect_lines : List Str → Option (List Str × ℕ)
collect_lines [] = none
collect_lines (line ∷ lines) =
    let rest = with_line line (collect_lines lines) in if closes line then some ([], zero) else rest

abbrev joined : Option (List Str × ℕ) → Option (Str × ℕ)
joined none = none
joined (some (collected, close)) = some (join b'\n' collected, close)

unfoldable pub collect_body : List Str → Option (Str × ℕ)
unfolding collect_lines
collect_body lines = joined (collect_lines lines)

-- How many lines to pass over, the closing fence included.
unfoldable pub skip_to_close : List Str → ℕ
skip_to_close [] = zero
skip_to_close (line ∷ lines) = if closes line then suc zero else suc (skip_to_close lines)

-- The map `seen`: whether a path is a key of it.
unfoldable pub is_seen : Str → List Str → Bool
is_seen path [] = false
is_seen path (p ∷ ps) = if str_eq p path then true else is_seen path ps

abbrev pub op_of : OpKind → Str → Str → FileOp
op_of kind raw body = record {
  kind = kind;
  raw_path = raw;
  path = clean raw;
  content = elim kind [ OpKind.write ↦ body | _ ↦ [] ];
}

abbrev fail {ℓ} : {A : Type ℓ} → ParseReason → ℕ → Result ParseError A
fail reason line = err (record { reason = reason; line = line })

unfoldable pub info_of : Str → Str
info_of trimmed = trim_space (trim_prefix trimmed fence_marker)

-- The loop: lines to pass over, lines left, the number of the next line, what was found so far.
unfoldable pub scan : ℕ → List Str → ℕ → List FileOp → List Str → Result ParseError (List FileOp)
scan skip [] n ops seen = ok ops
scan (suc skip) (line ∷ lines) n ops seen = scan skip lines (suc n) ops seen
scan zero (line ∷ lines) n ops seen = elim (has_prefix (trim_space line) fence_marker) [
  | false ↦ scan zero lines (suc n) ops seen
  | true ↦ elim (classify_info (info_of (trim_space line))) [
    | none ↦ scan (skip_to_close lines) lines (suc n) ops seen
    | some (kind, raw) ↦ elim (is_empty raw) [
      | true ↦ fail missing_path n
      | false ↦ elim (collect_body lines) [
        | none ↦ fail unclosed_fence n
        | some (body, close) ↦ elim (is_seen (clean raw) seen) [
          | true ↦ fail duplicate_path n
          | false ↦
              scan (suc close) lines (suc n) (ops ++ op_of kind raw body ∷ []) (clean raw ∷ seen)
        ]
      ]
    ]
  ]
]

-- No operation is an error.
abbrev pub require_ops : List FileOp → Result ParseError (List FileOp)
require_ops [] = fail no_operations zero
require_ops (op ∷ ops) = ok (op ∷ ops)

unfoldable pub parse : Str → Result ParseError (List FileOp)
unfolding scan classify_info closes collect_body skip_to_close is_seen info_of
parse output = elim (scan zero (split b'\n' output) 1 [] []) [
  | ok ops ↦ require_ops ops
  | err e ↦ err e
]
