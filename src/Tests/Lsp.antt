-- ===== src/Tests/Lsp.antt =====
-- internal/lsp on concrete inputs.
use go_mcp_gateway.Common.{
  ◌*◌, ◌≡◌, refl, arith, true, false, none, some, Option, List, [], ◌∷◌, ◌++◌, String, ℕ, ◌∙◌, ◌≢◌,
  name_eq_refl, name_eq, eq_iff,
}
use go_mcp_gateway.Common.Dict
use go_mcp_gateway.Common.Dict.{Dict}
use go_mcp_gateway.Common.Int.{pos}
use go_mcp_gateway.Common.Text.{Str, codes, has_prefix, trim_space, trim_left, trim_right, str_eq}
use go_mcp_gateway.Policy.Clock.{minute}
use go_mcp_gateway.Lsp.Framing.{
  JsonRpcResponse, message, panicked, frame, print_number, digits, read_message, read_headers,
  read_header, atoi, value,
}
use go_mcp_gateway.Lsp.Framing.RoundTrip.{read_message-frame}
use go_mcp_gateway.Lsp.Documents.{Notification, did_open, did_change}
use go_mcp_gateway.Lsp.Documents.Mirrors.{
  Server, Ensure, run, last_read, changes, versioned, run-refines, lost_write,
}
use go_mcp_gateway.Lsp.Requests.{begin, find, finish, answer}
use go_mcp_gateway.Lsp.Requests.Answers
use go_mcp_gateway.Lsp.Requests.Answers.{Event, Gets, answers_fit}
use go_mcp_gateway.Lsp.Pool.{Pool, default_config, session_key, get_or_create, sweep}
use go_mcp_gateway.Lsp.Pool.Sessions.{unused_evicted}

abbrev response : JsonRpcResponse
response = record { id = pos 1; result = codes "null"; error = none }

abbrev decode : Str → Option JsonRpcResponse
decode body = some response

-- The body holds what looks like a header, and another message follows.
read_message-frame_example :
    read_message decode
      (frame (codes "{Content-Length: 3\r\n\r\n}") ++ codes "Content-Length: 4\r\n\r\nnull")
    ≡ message response (codes "Content-Length: 4\r\n\r\nnull")
read_message-frame_example =
    read_message-frame decode response (codes "{Content-Length: 3\r\n\r\n}")
      (codes "Content-Length: 4\r\n\r\nnull") (λ e. cc e) (omega arith) refl

frame_small : frame (codes "null") ≡ codes "Content-Length: 4\r\n\r\nnull"
unfolding frame print_number digits
frame_small = refl

-- A negative length is not caught.
negative_length : read_message decode (codes "Content-Length: -1\r\n\r\nnull") ≡ panicked
unfolding read_message read_headers read_header atoi value has_prefix trim_space trim_left
    trim_right
negative_length = refl

abbrev calls : List Ensure
calls =
    record { path = "/b.go"; contents = none; writes = true }
    ∷ record { path = "/a.go"; contents = some (codes "y"); writes = true }
    ∷ record { path = "/a.go"; contents = some (codes "x"); writes = true }
    ∷ []

abbrev receive : Notification → Dict (ℕ × Str) → Dict (ℕ × Str)
receive (did_open path version text) s = Dict.insert path (version, text) s
receive (did_change path version text) s = Dict.insert path (version, text) s

nothing_held : (k : String) → Dict.lookup {V = ℕ × Str} k [] ≡ none
unfolding Dict.lookup
nothing_held k = refl

beside :
    (path : String) (version : ℕ) (text : Str) (s : Dict (ℕ × Str)) (k : String)
    → k ≢ path
    → Dict.lookup k (Dict.insert path (version, text) s) ≡ Dict.lookup k s
beside path version text s k ne =
    let other : name_eq k path ≡ false = ground (arith, eq_iff k path, ne) in
    Dict.lookup-insert path k (version, text) s ∙ rw other refl

-- A server that keeps the files in a dictionary; a change of a file sets it.
abbrev dict_server : Server
dict_server = record {
  State = Dict (ℕ × Str);
  initial = [];
  receive = receive;
  held = λ s k. Dict.lookup k s;
  held_initial = nothing_held;
  held_open = λ path version text s k. Dict.lookup-insert path k (version, text) s;
  held_change = λ path before version old text s h less.
      Dict.lookup-insert path path (version, text) s ∙ rw (name_eq_refl path) refl;
  held_beside = beside;
}

calls_change : changes "/a.go" calls ≡ 1
unfolding changes last_read str_eq
calls_change = refl

run-refines_example :
    dict_server.held (run dict_server calls).1 "/a.go"
    ≡ versioned (changes "/a.go" calls) (last_read "/a.go" calls)
run-refines_example =
    run-refines dict_server calls "/a.go" (refl, (refl, (refl, tt))) (omega (arith, calls_change))

lost_write_example :
    (run dict_server (
      record { path = "/a.go"; contents = some (codes "z"); writes = true }
      ∷ record { path = "/a.go"; contents = some (codes "z"); writes = false }
      ∷ calls)).1
    ≡ (run dict_server calls).1
lost_write_example = lost_write dict_server calls "/a.go" (codes "z")

abbrev pool : Pool
pool = record {
  cfg = default_config;
  sessions = ("go|/x", record { handle = 0; last_used = 5; in_flight = 1 }) ∷ [];
  next = 1;
}

pool-IsDistinct : Dict.IsDistinct pool.sessions
unfolding Dict.lookup
pool-IsDistinct = (refl, tt)

go_configured :
    Dict.lookup "go" pool.cfg.server_configs
    ≡ some (record { command = "gopls"; args = []; language = "go" })
unfolding Dict.lookup
go_configured = refl

not_open : Dict.lookup (session_key "go" "/w") pool.sessions ≡ none
unfolding Dict.lookup session_key
not_open = refl

unused_evicted_example :
    Dict.lookup
      (session_key "go" "/w")
      (sweep (16 * minute) (get_or_create "go" "/w" none pool).0).0.sessions
    ≡ none
unused_evicted_example =
    unused_evicted "go" "/w" pool (16 * minute)
      (record { command = "gopls"; args = []; language = "go" }) pool-IsDistinct go_configured
      not_open (omega arith)

-- A request, an answer to another one and its own.
abbrev events : List Event
events = Event.read response ∷ Event.read (record response { id = pos 9 }) ∷ Event.began ∷ []

answers_fit_example :
    (find (begin (Answers.run events)).1 (Answers.run events).pending ≡ none)
    × Gets events 1 (finish 1 answer (Answers.run events))
answers_fit_example = answers_fit events 1
