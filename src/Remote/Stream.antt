-- ===== src/Remote/Stream.antt =====
-- internal/remote/streaming.go. JSON is a parameter, and `bufio.Scanner` is written out: lines end
-- with a line feed, which a carriage return may come before, and a line of more than 65535 bytes ends
-- the scan with an error.
pub mod Aggregates
use Prim.Native.String.{◌++◌ as text_append}
use go_mcp_gateway.Common.{
  ℕ, ◌+◌, ◌^◌, ◌==◌, leb, ltb, Bool, true, false, not, ◌&&◌, ◌||◌, Option, none, some, String, List,
  [], ◌∷◌, if◌then◌else◌, name_eq, length, drop,
}
use go_mcp_gateway.Common.Text.{Str, codes, str_eq, has_prefix, is_empty, split, trim_prefix}
use go_mcp_gateway.Remote.{
  RemoteResult, terminal, Answer, returned, raised, Reply, too_many_requests, replied,
}

-- The end of a line without its carriage return.
unfoldable pub drop_cr : Str → Str
drop_cr [] = []
drop_cr (c ∷ []) = if c == 13 then [] else c ∷ []
drop_cr (c ∷ d ∷ s) = c ∷ drop_cr (d ∷ s)

unfoldable pub too_long : Str → Bool
too_long line = not (ltb (length line) (2 ^ 16))

-- The lines that `Scan` returns, and whether none of them was too long. The bytes are split at the
-- line feeds; what comes after the last one is a line if it is not empty.
unfoldable pub scan : List Str → List Str × Bool
unfolding too_long drop_cr
scan [] = ([], true)
scan (l ∷ []) =
    if too_long l then ([], false) else if is_empty l then ([], true) else (drop_cr l ∷ [], true)
scan (l ∷ m ∷ ls) =
    let (rest, whole) = scan (m ∷ ls) in
    if too_long l then ([], false) else (drop_cr l ∷ rest, whole)

pub record Usage : Type 0 where
  pub prompt_tokens : ℕ
  pub completion_tokens : ℕ

-- `choices` are the contents of the deltas.
pub record OpenaiStreamChunk : Type 0 where
  pub model : String
  pub choices : List String
  pub usage : Option Usage

-- What the loop has gathered.
pub record Gathered : Type 0 where
  pub content : String
  pub prompt_tokens : ℕ
  pub completion_tokens : ℕ
  pub model : String

abbrev pub nothing : Gathered
nothing = record { content = ""; prompt_tokens = 0; completion_tokens = 0; model = "" }

abbrev pub first_delta : List String → String
first_delta [] = ""
first_delta (text ∷ _) = text

abbrev pub with_usage : Option Usage → Gathered → Gathered
with_usage none g = g
with_usage (some u) g = record g {
  prompt_tokens = u.prompt_tokens;
  completion_tokens = u.completion_tokens;
}

unfoldable pub add_chunk : OpenaiStreamChunk → Gathered → Gathered
add_chunk c g = with_usage c.usage (record g {
  content = text_append g.content (first_delta c.choices);
  model = if name_eq g.model "" then c.model else g.model;
})

-- A line that is passed over, the end of the stream, or a chunk.
pub data Line : Type 0 where
  passed : Line
  done : Line
  chunk : OpenaiStreamChunk → Line

abbrev pub decoded : Option OpenaiStreamChunk → Line
decoded none = passed
decoded (some c) = chunk c

abbrev pub read_payload : (Str → Option OpenaiStreamChunk) → Str → Line
read_payload decode payload =
    if str_eq payload (codes "[DONE]") then done else decoded (decode payload)

unfoldable pub read_line : (Str → Option OpenaiStreamChunk) → Str → Line
unfolding has_prefix trim_prefix
read_line decode line =
    if has_prefix line (codes "data: ")
    then read_payload decode (trim_prefix line (codes "data: "))
    else passed

-- The loop, and whether it met the end of the stream.
unfoldable pub gather : (Str → Option OpenaiStreamChunk) → List Str → Gathered → Gathered × Bool
unfolding read_line add_chunk
gather decode [] g = (g, false)
gather decode (line ∷ lines) g = elim (read_line decode line) [
  | passed ↦ gather decode lines g
  | done ↦ (g, true)
  | chunk c ↦ gather decode lines (add_chunk c g)
]

abbrev pub result_of : String → Gathered → RemoteResult
result_of name g = record {
  content = g.content;
  prompt_tokens = g.prompt_tokens;
  completion_tokens = g.completion_tokens;
  model = g.model;
  provider = name;
}

-- An error of the scan counts only if the loop did not leave before it.
abbrev pub concluded : String → Bool → Bool → Gathered × Bool → Answer RemoteResult
concluded name broken whole (g, ended) =
    if ended || (whole && not broken) then returned (result_of name g) else raised (terminal name 0)

-- `broken` is whether reading the body fails behind its bytes.
unfoldable pub read_sse :
    String → (Str → Option OpenaiStreamChunk) → Bool → Str → Answer RemoteResult
unfolding scan gather
read_sse name decode broken body =
    let (lines, whole) = scan (split b'\n' body) in
    concluded name broken whole (gather decode lines nothing)

-- What comes of a request for a stream.
pub data StreamExchange : Type 0 where
  not_encoded not_built not_sent : StreamExchange
  answered : ℕ → Bool → Str → StreamExchange

unfoldable pub do_stream : String → (Str → Option OpenaiStreamChunk) → StreamExchange → Reply
unfolding read_sse
do_stream name decode not_encoded = replied (raised (terminal name 0))
do_stream name decode not_built = replied (raised (terminal name 0))
do_stream name decode not_sent = replied (raised (terminal name 0))
do_stream name decode (answered status broken body) =
    if status == 429
    then too_many_requests
    else if status == 200
    then replied (read_sse name decode broken body)
    else replied (raised (terminal name status))
