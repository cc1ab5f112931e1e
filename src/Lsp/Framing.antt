-- ===== src/Lsp/Framing.antt =====
-- `send`, `readMessage` and `readLoop` of internal/lsp/session.go. A stream is the bytes that are
-- still to be read, with the end of the file behind them; JSON is a parameter. `strconv.Atoi` and
-- `%d` are written out.
pub mod RoundTrip
use go_mcp_gateway.Common.{
  ℕ, zero, suc, ◌+◌, ◌-◌, ◌*◌, ◌/◌, ◌%◌, ◌^◌, ◌==◌, ltb, leb, Bool, true, false, not, ◌&&◌, ◌||◌,
  Option, none, some, List, [], ◌∷◌, ◌++◌, if◌then◌else◌, length, take, drop,
}
use go_mcp_gateway.Common.Int.{ℤ, pos, negsuc, sub_ℕ}
use go_mcp_gateway.Common.Text.{Str, codes, is_empty, has_prefix, trim_space}

-- The digits of a number, most significant first. The fuel is the number and one: each digit divides
-- what is left by ten.
unfoldable pub digits : ℕ → ℕ → Str
digits zero n = []
digits (suc fuel) n =
    let rest = digits fuel (n / 10) in
    if ltb n 10 then (48 + n) ∷ [] else rest ++ (48 + n % 10) ∷ []

-- `%d` of a length.
unfoldable pub print_number : ℕ → Str
unfolding digits
print_number n = digits (suc n) n

abbrev pub is_digit : ℕ → Bool
is_digit c = leb b'0' c && leb c b'9'

-- `none` is a byte that is no digit. A number of more than 64 bits ends at such a byte.
unfoldable pub value : ℕ → Str → Option ℕ
value acc [] = some acc
value acc (c ∷ s) =
    let rest = value (acc * 10 + (c - 48)) s in
    if is_digit c then rest else if ltb acc (2 ^ 64) then none else some acc

-- The number that `strconv.Atoi` returns beside its error: 0 for text that is no number, and the
-- nearest end of int64 for a number out of range.
abbrev pub clamp : Bool → Option ℕ → ℤ
clamp negative none = pos 0
clamp true (some n) = if leb n (2 ^ 63) then sub_ℕ 0 n else negsuc (2 ^ 63 - 1)
clamp false (some n) = if ltb n (2 ^ 63) then pos n else pos (2 ^ 63 - 1)

abbrev pub magnitude : Str → Option ℕ
magnitude [] = none
magnitude (c ∷ s) = value 0 (c ∷ s)

unfoldable pub atoi : Str → ℤ
unfolding value
atoi [] = pos 0
atoi (c ∷ s) =
    if c == b'-'
    then clamp true (magnitude s)
    else if c == b'+'
    then clamp false (magnitude s)
    else clamp false (magnitude (c ∷ s))

abbrev pub header_name : Str
header_name = codes "Content-Length:"

abbrev pub crlf : Str
crlf = 13 ∷ 10 ∷ []

-- What `send` writes for the encoded message.
unfoldable pub frame : Str → Str
unfolding print_number
frame body = codes "Content-Length: " ++ (print_number (length body) ++ (crlf ++ (crlf ++ body)))

-- The length after a header line, which is trimmed.
unfoldable pub read_header : ℤ → Str → ℤ
unfolding atoi has_prefix trim_space
read_header n line =
    if has_prefix line header_name then atoi (trim_space (drop (length header_name) line)) else n

-- The loop over the header lines, byte by byte, with the line read so far. `none` is the end of the
-- stream.
unfoldable pub read_headers : Str → ℤ → Str → Option (ℤ × Str)
unfolding read_header trim_space
read_headers line n [] = none
read_headers line n (c ∷ s) = elim (c == 10) [
  | false ↦ read_headers (line ++ c ∷ []) n s
  | true ↦ elim (is_empty (trim_space (line ++ c ∷ []))) [
    | true ↦ some (n, s)
    | false ↦ read_headers [] (read_header n (trim_space (line ++ c ∷ []))) s
  ]
]

pub record JsonRpcResponse : Type 0 where
  pub id : ℤ
  pub result : Str
  pub error : Option (ℤ × Str)

-- `make` panics on a negative length. That the memory does not hold a length is not modelled.
pub data ReadResult : Type 0 where
  message : JsonRpcResponse → Str → ReadResult
  failed : ReadResult
  panicked : ReadResult

abbrev decoded : Option JsonRpcResponse → Str → ReadResult
decoded none rest = failed
decoded (some m) rest = message m rest

abbrev read_body : (Str → Option JsonRpcResponse) → ℤ → Str → ReadResult
read_body decode (negsuc n) s = panicked
read_body decode (pos zero) s = failed
read_body decode (pos (suc n)) s =
    if ltb (length s) (suc n) then failed else decoded (decode (take (suc n) s)) (drop (suc n) s)

unfoldable pub read_message : (Str → Option JsonRpcResponse) → Str → ReadResult
unfolding read_headers
read_message decode s = elim (read_headers [] (pos 0) s) [
  | none ↦ failed
  | some (n, rest) ↦ read_body decode n rest
]
