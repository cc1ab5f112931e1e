-- ===== src/Lsp/Framing/RoundTrip.antt =====
-- What internal/lsp/session.go writes with `send`, `readMessage` reads back.
use go_mcp_gateway.Common.{
  ℕ, zero, suc, ◌+◌, ◌-◌, ◌*◌, ◌/◌, ◌%◌, ◌^◌, ◌≤◌, ◌<◌, ◌≡◌, ◌≢◌, refl, sym, ap, ◌∙◌, inl, inr,
  arith, ◌==◌, ltb, true, false, Bool-cases, Option, some, [], ◌∷◌, ◌++◌, append_assoc, append-nil,
  length, length-append, take, drop-length, All, All-append,
}
use go_mcp_gateway.Common.Int.{ℤ, pos}
use go_mcp_gateway.Common.Text.{
  Str, codes, is_empty, has_prefix, trim_left, trim_right, trim_space, is_space, Without,
}
use go_mcp_gateway.Lsp.Framing.{
  digits, print_number, is_digit, value, clamp, atoi, crlf, frame, read_header, read_headers,
  JsonRpcResponse, message, read_body, read_message,
}

abbrev IsDigit : ℕ → Type 0
IsDigit c = (48 ≤ c) × (c ≤ 57)

digits-IsDigit : (fuel n : ℕ) → All IsDigit (digits fuel n)
unfolding digits
digits-IsDigit zero n = tt
digits-IsDigit (suc fuel) n = elim (Bool-cases (ltb n 10)) [
  | inl e ↦ rw e ((omega arith, ground (arith, e)), tt)
  | inr e ↦ rw e (
      All-append IsDigit (digits fuel (n / 10)) _ (digits-IsDigit fuel (n / 10))
        ((omega arith, omega arith), tt))
]

value-append :
    (acc v : ℕ) (s t : Str) → All IsDigit s → value acc s ≡ some v → value acc (s ++ t) ≡ value v t
unfolding value
value-append acc v [] t hs h = ap (λ a. value a t) (cc h)
value-append acc v (c ∷ s) t hs h =
    let e : is_digit c ≡ true = ground arith in
    rw (e, value) (value-append (acc * 10 + (c - 48)) v s t hs.1 (rw (e, value) at h))

value_digit : (acc d : ℕ) → d < 10 → value acc ((48 + d) ∷ []) ≡ some (acc * 10 + d)
unfolding value
value_digit acc d h = ground arith

value-digits : (fuel n : ℕ) → n < fuel → value 0 (digits fuel n) ≡ some n
unfolding digits
value-digits zero n h = absurd (omega arith)
value-digits (suc fuel) n h = elim (Bool-cases (ltb n 10)) [
  | inl e ↦ rw e (value_digit 0 n (ground (arith, e)) ∙ ap some (omega arith))
  | inr e ↦ rw e (
      value-append 0 (n / 10) (digits fuel (n / 10)) ((48 + n % 10) ∷ [])
        (digits-IsDigit fuel (n / 10)) (value-digits fuel (n / 10) (ground (arith, e)))
      ∙ value_digit (n / 10) (n % 10) (omega arith)
      ∙ ap some (omega arith))
]

clamp_id : (n : ℕ) → n < 2 ^ 63 → clamp false (some n) ≡ pos n
clamp_id n h = ground arith

atoi-digits :
    (c : ℕ) (s : Str) (n : ℕ)
    → IsDigit c
    → value 0 (c ∷ s) ≡ some n
    → n < 2 ^ 63
    → atoi (c ∷ s) ≡ pos n
unfolding atoi
atoi-digits c s n h v lt =
    let no_minus : (c == b'-') ≡ false = ground arith in
    let no_plus : (c == b'+') ≡ false = ground arith in
    rw (no_minus, no_plus) (ap (clamp false) v ∙ clamp_id n lt)

snoc-ne-nil : (xs : Str) (c : ℕ) → xs ++ c ∷ [] ≢ []
snoc-ne-nil [] c k = cc k
snoc-ne-nil (x ∷ xs) c k = cc k

print_number-ne-nil : (n : ℕ) → print_number n ≢ []
unfolding print_number digits
print_number-ne-nil n = elim (Bool-cases (ltb n 10)) [
  | inl e ↦ rw (e, print_number) (λ k. cc k)
  | inr e ↦ rw (e, print_number) (snoc-ne-nil (digits n (n / 10)) (48 + n % 10))
]

print_number-IsDigit : (n : ℕ) → All IsDigit (print_number n)
unfolding print_number
print_number-IsDigit n = digits-IsDigit (suc n) n

atoi-print : (n : ℕ) → n < 2 ^ 63 → atoi (print_number n) ≡ pos n
unfolding print_number digits
atoi-print n lt =
    of_digits (digits (suc n) n) (digits-IsDigit (suc n) n) (value-digits (suc n) n (omega arith))
      (print_number-ne-nil n)
  where
    of_digits : (s : Str) → All IsDigit s → value 0 s ≡ some n → s ≢ [] → atoi s ≡ pos n
    of_digits [] h v ne = absurd (ne refl)
    of_digits (c ∷ s) h v ne = atoi-digits c s n h.0 v lt

-- Trimming leaves text that does not begin or end with a space.
abbrev Solid : Str → Type 0
Solid = All (λ c. is_space c ≡ false)

IsDigit-Solid : (s : Str) → All IsDigit s → Solid s
IsDigit-Solid [] h = tt
IsDigit-Solid (c ∷ s) h = (ground arith, IsDigit-Solid s h.1)

trim_right-Solid : (s : Str) → Solid s → trim_right s ≡ s
unfolding trim_right
trim_right-Solid [] h = refl
trim_right-Solid (c ∷ []) h = rw (h.0) refl
trim_right-Solid (c ∷ d ∷ s) h = rw (trim_right-Solid (d ∷ s) h.1) refl

trim_right-behind : (s t : Str) → trim_right t ≡ t → t ≢ [] → trim_right (s ++ t) ≡ s ++ t
unfolding trim_right
trim_right-behind [] t h ne = h
trim_right-behind (c ∷ s) [] h ne = absurd (ne refl)
trim_right-behind (c ∷ []) (d ∷ t) h ne = rw (h, trim_right) refl
trim_right-behind (c ∷ e ∷ s) (d ∷ t) h ne = rw (trim_right-behind (e ∷ s) (d ∷ t) h ne) refl

trim_right-cr : (s : Str) → trim_right (s ++ 13 ∷ 10 ∷ []) ≡ trim_right s
unfolding trim_right
trim_right-cr [] = refl
trim_right-cr (c ∷ s) = rw (trim_right-cr s) refl

read_headers-byte :
    (acc : Str) (c : ℕ) (n : ℤ) (s : Str)
    → (c == 10) ≡ false
    → read_headers acc n (c ∷ s) ≡ read_headers (acc ++ c ∷ []) n s
unfolding read_headers
read_headers-byte acc c n s h = rw (h, read_headers) refl

read_headers-newline :
    (line : Str) (n : ℤ) (s : Str)
    → is_empty (trim_space (line ++ 10 ∷ [])) ≡ false
    → read_headers line n (10 ∷ s)
      ≡ read_headers [] (read_header n (trim_space (line ++ 10 ∷ []))) s
unfolding read_headers
read_headers-newline line n s h = rw (h, read_headers) refl

read_headers-line :
    (acc l : Str) (n : ℤ) (s : Str)
    → Without 10 l
    → read_headers acc n (l ++ 10 ∷ s) ≡ read_headers (acc ++ l) n (10 ∷ s)
read_headers-line acc [] n s h = ap (λ a. read_headers a n (10 ∷ s)) (sym (append-nil acc))
read_headers-line acc (c ∷ l) n s h =
    read_headers-byte acc c n (l ++ 10 ∷ s) (ground (arith, h.0))
    ∙ read_headers-line (acc ++ c ∷ []) l n s h.1
    ∙ ap (λ a. read_headers a n (10 ∷ s)) (append_assoc acc (c ∷ []) l)

-- The header that `send` writes, without its end of line.
abbrev header : Str → Str
header ds = codes "Content-Length: " ++ ds

trim_header :
    (ds : Str) → Solid ds → ds ≢ [] → trim_space ((header ds ++ 13 ∷ []) ++ 10 ∷ []) ≡ header ds
unfolding trim_space trim_left
trim_header ds h ne =
    ap trim_right (append_assoc (header ds) (13 ∷ []) (10 ∷ []))
    ∙ trim_right-cr (header ds)
    ∙ trim_right-behind (codes "Content-Length: ") ds (trim_right-Solid ds h) ne

trim_left-Solid : (ds : Str) → Solid ds → trim_left ds ≡ ds
unfolding trim_left
trim_left-Solid [] h = refl
trim_left-Solid (c ∷ ds) h = rw (h.0) refl

read_header-lem : (n : ℤ) (ds : Str) → Solid ds → read_header n (header ds) ≡ atoi ds
unfolding read_header has_prefix trim_space trim_left
read_header-lem n ds h = ap atoi (ap trim_right (trim_left-Solid ds h) ∙ trim_right-Solid ds h)

-- The end of the header's line.
read_headers-end :
    (ds : Str) (s : Str)
    → Solid ds
    → ds ≢ []
    → read_headers (header ds ++ 13 ∷ []) (pos 0) (10 ∷ s) ≡ read_headers [] (atoi ds) s
read_headers-end ds s h ne =
    let trimmed = trim_header ds h ne in
    read_headers-newline (header ds ++ 13 ∷ []) (pos 0) s (ap is_empty trimmed)
    ∙ ap (λ t. read_headers [] (read_header (pos 0) t) s) trimmed
    ∙ ap (λ n. read_headers [] n s) (read_header-lem (pos 0) ds h)

Solid-Without : (ds : Str) → Solid ds → Without 10 ds
Solid-Without [] h = tt
Solid-Without (c ∷ ds) h = ((λ e. ground (arith, h.0)), Solid-Without ds h.1)

header-Without : (ds : Str) → Solid ds → Without 10 (header ds ++ 13 ∷ [])
header-Without ds h =
    All-append (λ c. c ≢ 10) (codes "Content-Length: ") (ds ++ 13 ∷ []) (omega arith)
      (All-append (λ c. c ≢ 10) ds (13 ∷ []) (Solid-Without ds h) (omega arith))

read_headers-frame :
    (ds : Str) (s : Str)
    → Solid ds
    → ds ≢ []
    → read_headers [] (pos 0) ((header ds ++ 13 ∷ []) ++ 10 ∷ 13 ∷ 10 ∷ s) ≡ some (atoi ds, s)
read_headers-frame ds s h ne =
    read_headers-line [] (header ds ++ 13 ∷ []) (pos 0) (13 ∷ 10 ∷ s) (header-Without ds h)
    ∙ read_headers-end ds (13 ∷ 10 ∷ s) h ne
    ∙ (unfold read_headers trim_space trim_left trim_right in refl)

take-length : (xs ys : Str) → take (length xs) (xs ++ ys) ≡ xs
take-length [] ys = refl
take-length (x ∷ xs) ys = ap (λ t. x ∷ t) (take-length xs ys)

read_body-frame :
    (decode : Str → Option JsonRpcResponse) (m : JsonRpcResponse) (body rest : Str)
    → body ≢ []
    → decode body ≡ some m
    → read_body decode (pos (length body)) (body ++ rest) ≡ message m rest
read_body-frame decode m [] rest ne d = absurd (ne refl)
read_body-frame decode m (c ∷ body) rest ne d =
    let enough : ltb (length (c ∷ body ++ rest)) (length (c ∷ body)) ≡ false =
      ground (arith, length-append body rest) in
    rw (enough, take-length body rest, d, drop-length body rest) refl

regrouped :
    (ds body rest : Str)
    → (codes "Content-Length: " ++ (ds ++ (crlf ++ (crlf ++ body)))) ++ rest
      ≡ (header ds ++ 13 ∷ []) ++ 10 ∷ 13 ∷ 10 ∷ (body ++ rest)
regrouped ds body rest =
    ap (λ t. codes "Content-Length: " ++ t)
      (append_assoc ds (crlf ++ (crlf ++ body)) rest
        ∙ sym (append_assoc ds (13 ∷ []) (10 ∷ 13 ∷ 10 ∷ (body ++ rest))))

-- The bytes that `send` writes, grouped by lines.
frame-lines :
    (body rest : Str)
    → frame body ++ rest
      ≡ (header (print_number (length body)) ++ 13 ∷ []) ++ 10 ∷ 13 ∷ 10 ∷ (body ++ rest)
unfolding frame
frame-lines body rest = regrouped (print_number (length body)) body rest

-- A message that `send` frames is read back whole, whatever its bytes are, and what follows it on
-- the stream is left for the next read. The body is not empty, and its length is an `int`.
pub read_message-frame :
    (decode : Str → Option JsonRpcResponse) (m : JsonRpcResponse) (body rest : Str)
    → body ≢ []
    → length body < 2 ^ 63
    → decode body ≡ some m
    → read_message decode (frame body ++ rest) ≡ message m rest
unfolding read_message
read_message-frame decode m body rest ne lt d =
    let n = length body in
    let solid = IsDigit-Solid (print_number n) (print_number-IsDigit n) in
    let headers =
      read_headers-frame (print_number n) (body ++ rest) solid (print_number-ne-nil n) in
    let read : read_headers [] (pos 0) (frame body ++ rest) ≡ some (pos n, body ++ rest) =
      ap (read_headers [] (pos 0)) (frame-lines body rest)
      ∙ headers
      ∙ ap (λ z. some (z, body ++ rest)) (atoi-print n lt) in
    rw (read, read_message) (read_body-frame decode m body rest ne d)
