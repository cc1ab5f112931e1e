-- ===== src/Filewriter/Parser/RoundTrip.antt =====
-- `Parse` (internal/filewriter/parser.go) reads back what is written in the output contract.
use go_mcp_gateway.Common.{
  ℕ, zero, suc, ◌≡◌, ◌≢◌, refl, List, [], ◌∷◌, ◌++◌, true, false, All, ap, sym, ◌∙◌, Bool, some,
  length, map, append_assoc, append-nil,
}
use go_mcp_gateway.Common.Text.{
  Str, str_eq, has_prefix, has_prefix-append, trim_prefix, trim_prefix-append, trim_left,
  trim_right, trim_space, split, join, split-join, Without, is_empty,
}
use go_mcp_gateway.Filewriter.Types.{OpKind, write, delete, FileOp, ok}
use go_mcp_gateway.Filewriter.FilePath.{clean}
use go_mcp_gateway.Filewriter.Parser.{
  fence_marker, info_prefix_file, info_prefix_delete, classify_info, info_of, closes, collect_lines,
  collect_body, is_seen, op_of, scan, parse,
}

-- One operation as a model writes it: lines of prose, the fence, the lines of the body.
pub record Block : Type 0 where
  pub prose : List Str
  pub is_delete : Bool
  pub path : Str
  pub body : List Str

pub kind_of : Block → OpKind
kind_of b = elim b.is_delete [ true ↦ delete | false ↦ write ]

unfoldable pub header : Bool → Str → Str
header true path = fence_marker ++ info_prefix_delete ++ path
header false path = fence_marker ++ info_prefix_file ++ path

-- The lines of the blocks, and the prose behind the last.
unfoldable pub lines_of : List Block → List Str → List Str
lines_of [] rest = rest
lines_of (b ∷ bs) rest =
    b.prose ++ (header b.is_delete b.path ∷ (b.body ++ (fence_marker ∷ lines_of bs rest)))

pub op_of_block : Block → FileOp
op_of_block b = op_of (kind_of b) b.path (join b'\n' b.body)

-- A path that trimming leaves alone.
pub record IsPlain (path : Str) : Type 0 where
  pub not_empty : path ≢ []
  pub left : trim_left path ≡ path
  pub right : trim_right path ≡ path

abbrev pub IsProse : Str → Type 0
IsProse line = has_prefix (trim_space line) fence_marker ≡ false

-- No line of the prose is a fence, and no line of the body closes it.
pub record IsWritten (b : Block) : Type 0 where
  pub prose : All IsProse b.prose
  pub plain : IsPlain b.path
  pub body : All (λ line. closes line ≡ false) b.body

-- The paths are new, and differ once they are cleaned.
unfoldable pub Fresh : List Str → List Block → Type 0
Fresh seen [] = Unit
Fresh seen (b ∷ bs) = (is_seen (clean b.path) seen ≡ false) × Fresh (clean b.path ∷ seen) bs

trim_right-cons : (c : ℕ) (s : Str) → trim_right s ≡ s → s ≢ [] → trim_right (c ∷ s) ≡ c ∷ s
unfolding trim_right
trim_right-cons c [] h k = absurd (k refl)
trim_right-cons c (d ∷ s) h k = rw h

trim_right-append :
    (p s : Str) → trim_right s ≡ s → s ≢ [] → (trim_right (p ++ s) ≡ p ++ s) × (p ++ s ≢ [])
trim_right-append [] s h k = (h, k)
trim_right-append (c ∷ p) s h k =
    let (e, n) = trim_right-append p s h k in (trim_right-cons c (p ++ s) e n, λ q. cc q)

-- A path behind a prefix that does not begin with white space.
trim_space-prefix :
    (p path : Str)
    → trim_left (p ++ path) ≡ p ++ path
    → IsPlain path
    → trim_space (p ++ path) ≡ p ++ path
unfolding trim_space
trim_space-prefix p path h v = rw h (trim_right-append p path v.right v.not_empty).0

trim_space-plain : (path : Str) → IsPlain path → trim_space path ≡ path
trim_space-plain path v = trim_space-prefix [] path v.left v

abbrev prefix_of : Bool → Str
prefix_of true = info_prefix_delete
prefix_of false = info_prefix_file

trim_space-info :
    (d : Bool) (path : Str) → IsPlain path → trim_space (prefix_of d ++ path) ≡ prefix_of d ++ path
unfolding trim_left
trim_space-info true path v = trim_space-prefix info_prefix_delete path refl v
trim_space-info false path v = trim_space-prefix info_prefix_file path refl v

trim_space-header :
    (d : Bool) (path : Str)
    → IsPlain path
    → trim_space (header d path) ≡ fence_marker ++ (prefix_of d ++ path)
unfolding header trim_left
trim_space-header true path v = trim_space-prefix (fence_marker ++ info_prefix_delete) path refl v
trim_space-header false path v = trim_space-prefix (fence_marker ++ info_prefix_file) path refl v

classify_header :
    (d : Bool) (path : Str)
    → IsPlain path
    → classify_info (prefix_of d ++ path) ≡ some (elim d [ true ↦ delete | false ↦ write ], path)
unfolding classify_info has_prefix trim_prefix
classify_header true path v = rw (trim_space-plain path v)
classify_header false path v = rw (trim_space-plain path v)

-- The number of the line behind some lines.
advance : List Str → ℕ → ℕ
advance [] n = n
advance (l ∷ ls) n = advance ls (suc n)

scan-prose :
    (prose more : List Str) (n : ℕ) (ops : List FileOp) (seen : List Str)
    → All IsProse prose
    → scan zero (prose ++ more) n ops seen ≡ scan zero more (advance prose n) ops seen
unfolding scan advance
scan-prose [] more n ops seen h = refl
scan-prose (l ∷ prose) more n ops seen h =
    rw (h.0, scan) (scan-prose prose more (suc n) ops seen h.1)

scan-rest :
    (rest : List Str) (n : ℕ) (ops : List FileOp) (seen : List Str)
    → All IsProse rest
    → scan zero rest n ops seen ≡ ok ops
unfolding scan
scan-rest [] n ops seen h = refl
scan-rest (l ∷ rest) n ops seen h = rw (h.0, scan) (scan-rest rest (suc n) ops seen h.1)

scan-body :
    (body more : List Str) (n : ℕ) (ops : List FileOp) (seen : List Str)
    → scan (suc (length body)) (body ++ (fence_marker ∷ more)) n ops seen
      ≡ scan zero more (suc (advance body n)) ops seen
unfolding scan advance
scan-body [] more n ops seen = refl
scan-body (l ∷ body) more n ops seen = scan-body body more (suc n) ops seen

closes-fence : closes fence_marker ≡ true
unfolding closes str_eq trim_space
closes-fence = refl

collect_lines-body :
    (body more : List Str)
    → All (λ line. closes line ≡ false) body
    → collect_lines (body ++ (fence_marker ∷ more)) ≡ some (body, length body)
unfolding collect_lines
collect_lines-body [] more h = rw closes-fence
collect_lines-body (l ∷ body) more h = rw (h.0, collect_lines-body body more h.1)

collect_body-body :
    (body more : List Str)
    → All (λ line. closes line ≡ false) body
    → collect_body (body ++ (fence_marker ∷ more)) ≡ some (join b'\n' body, length body)
unfolding collect_body
collect_body-body body more h = rw (collect_lines-body body more h)

fence-header :
    (d : Bool) (path : Str)
    → IsPlain path
    → has_prefix (trim_space (header d path)) fence_marker ≡ true
fence-header d path v = rw (trim_space-header d path v) (has_prefix-append fence_marker _)

info-header :
    (d : Bool) (path : Str)
    → IsPlain path
    → info_of (trim_space (header d path)) ≡ prefix_of d ++ path
unfolding info_of
info-header d path v =
    rw (trim_space-header d path v)
      (rw (trim_prefix-append fence_marker) (trim_space-info d path v))

is_empty-plain : (path : Str) → IsPlain path → is_empty path ≡ false
is_empty-plain [] v = absurd (v.not_empty refl)
is_empty-plain (c ∷ path) v = refl

scan-header :
    (b : Block) (more : List Str) (n : ℕ) (ops : List FileOp) (seen : List Str)
    → IsWritten b
    → is_seen (clean b.path) seen ≡ false
    → scan zero (header b.is_delete b.path ∷ (b.body ++ (fence_marker ∷ more))) n ops seen
      ≡ scan
          (suc (length b.body))
          (b.body ++ (fence_marker ∷ more))
          (suc n)
          (ops ++ op_of_block b ∷ [])
          (clean b.path ∷ seen)
unfolding scan op_of_block kind_of
scan-header b more n ops seen w new = rw (
  fence-header b.is_delete b.path w.plain,
  info-header b.is_delete b.path w.plain,
  classify_header b.is_delete b.path w.plain,
  is_empty-plain b.path w.plain,
  collect_body-body b.body more w.body,
  new,
  scan,
)

scan-blocks :
    (bs : List Block) (rest : List Str) (n : ℕ) (ops : List FileOp) (seen : List Str)
    → All IsWritten bs
    → All IsProse rest
    → Fresh seen bs
    → scan zero (lines_of bs rest) n ops seen ≡ ok (ops ++ map op_of_block bs)
unfolding lines_of Fresh
scan-blocks [] rest n ops seen w p f = scan-rest rest n ops seen p ∙ ap ok (sym (append-nil ops))
scan-blocks (b ∷ bs) rest n ops seen w p f =
    scan-prose b.prose _ n ops seen w.0.prose
    ∙ scan-header b _ (advance b.prose n) ops seen w.0 f.0
    ∙ scan-body b.body _ _ _ _
    ∙ scan-blocks bs rest _ _ _ w.1 p f.1
    ∙ ap ok (append_assoc ops (op_of_block b ∷ []) (map op_of_block bs))

append-cons-ne-nil : (xs : List Str) (y : Str) (ys : List Str) → xs ++ (y ∷ ys) ≢ []
append-cons-ne-nil [] y ys e = cc
append-cons-ne-nil (x ∷ xs) y ys e = cc

split-join_lines :
    (ls : List Str) → ls ≢ [] → All (Without b'\n') ls → split b'\n' (join b'\n' ls) ≡ ls
split-join_lines [] h l = absurd (h refl)
split-join_lines (x ∷ ls) h l = split-join b'\n' x ls l

-- What is written in the output contract is read back: blocks in any number, of writes and deletes,
-- with prose between them and behind the last. Each block gives its operation, in order, with the
-- lines of the body joined, if no line holds a newline, no prose line is a fence, no body line
-- closes one, and the paths are trimmed, not empty, and distinct once cleaned.
pub parse_round_trip :
    (bs : List Block) (rest : List Str)
    → bs ≢ []
    → All IsWritten bs
    → All IsProse rest
    → Fresh [] bs
    → All (Without b'\n') (lines_of bs rest)
    → parse (join b'\n' (lines_of bs rest)) ≡ ok (map op_of_block bs)
unfolding parse
parse_round_trip [] rest h w p f l = absurd (h refl)
parse_round_trip (b ∷ bs) rest h w p f l =
    let lines : split b'\n' (join b'\n' (lines_of (b ∷ bs) rest)) ≡ lines_of (b ∷ bs) rest =
      split-join_lines _ (unfold lines_of in append-cons-ne-nil b.prose _ _) l in
    rw (lines, scan-blocks (b ∷ bs) rest 1 [] [] w p f, parse)
