-- ===== src/Remote/Stream/Aggregates.antt =====
-- What internal/remote/streaming.go makes of a stream.
use Prim.Native.String.{◌++◌ as text_append}
use text.Mathlib.TextLemmas as TextLemmas
use go_mcp_gateway.Common.{
  ◌+◌, ◌^◌, ◌<◌, ◌≡◌, false, Option, none, some, String, List, [], ◌∷◌, ◌++◌, append_assoc,
  if◌then◌else◌, name_eq, length,
}
use go_mcp_gateway.Common.Text.{Str, codes, str_eq, Without}
use go_mcp_gateway.Remote.Stream.{
  Usage, OpenaiStreamChunk, Gathered, first_delta, with_usage, add_chunk,
}

-- A payload of one line that fits the buffer and is not the mark of the end.
abbrev pub IsPayload : Str → Type 0
IsPayload p =
    Without 10 p × Without 13 p × (length p + 6 < 2 ^ 16) × (str_eq p (codes "[DONE]") ≡ false)

-- An event as providers write it, and a stream of them.
abbrev pub event : Str → Str
event p = codes "data: " ++ (p ++ 10 ∷ 10 ∷ [])

abbrev pub events : List Str → Str
events [] = []
events (p ∷ ps) = event p ++ events ps

abbrev pub add_decoded : Option OpenaiStreamChunk → List OpenaiStreamChunk → List OpenaiStreamChunk
add_decoded none cs = cs
add_decoded (some c) cs = c ∷ cs

-- The payloads that decode.
abbrev pub chunks : (Str → Option OpenaiStreamChunk) → List Str → List OpenaiStreamChunk
chunks decode [] = []
chunks decode (p ∷ ps) = add_decoded (decode p) (chunks decode ps)

abbrev pub text_of : List OpenaiStreamChunk → String
text_of [] = ""
text_of (c ∷ cs) = text_append (first_delta c.choices) (text_of cs)

abbrev pub model_of : List OpenaiStreamChunk → String
model_of [] = ""
model_of (c ∷ cs) = if name_eq c.model "" then model_of cs else c.model

abbrev pub or_else : Option Usage → Option Usage → Option Usage
or_else none o = o
or_else (some u) o = some u

abbrev pub usage_of : List OpenaiStreamChunk → Option Usage
usage_of [] = none
usage_of (c ∷ cs) = or_else (usage_of cs) c.usage

-- The texts of all chunks in order, the first model that is named, and the last usage.
abbrev pub summary : List OpenaiStreamChunk → Gathered
summary cs =
    with_usage (usage_of cs) (record {
      content = text_of cs;
      prompt_tokens = 0;
      completion_tokens = 0;
      model = model_of cs;
    })

abbrev line_of : Str → Str
line_of p = codes "data: " ++ p

abbrev absorb : Option OpenaiStreamChunk → Gathered → Gathered
absorb none g = g
absorb (some c) g = add_chunk c g

abbrev fold : List OpenaiStreamChunk → Gathered → Gathered
fold [] g = g
fold (c ∷ cs) g = fold cs (add_chunk c g)

-- What the chunks add to what is there.
abbrev joined : List OpenaiStreamChunk → Gathered → Gathered
joined cs g = record g {
  content = text_append g.content (text_of cs);
  model = if name_eq g.model "" then model_of cs else g.model;
}

module _ (c : OpenaiStreamChunk) (cs : List OpenaiStreamChunk) (g : Gathered) where
  abbrev contents_join :
      text_append (text_append g.content (first_delta c.choices)) (text_of cs)
      ≡ text_append g.content (text_append (first_delta c.choices) (text_of cs))
  contents_join = TextLemmas.append_assoc g.content (first_delta c.choices) (text_of cs)

  abbrev base : Gathered
  base = record g {
    content = text_append g.content (first_delta c.choices);
    model = if name_eq g.model "" then c.model else g.model;
  }

abbrev mark : Str
mark = codes "data: [DONE]"
