-- ===== src/Lsp/Pool.antt =====
-- internal/lsp/manager.go: the pool of sessions. A method is one step; the processes are a parameter.
pub mod Sessions
use Prim.Native.String.{◌++◌ as text_append}
use go_mcp_gateway.Common.{
  ℕ, suc, ◌+◌, ◌*◌, ◌==◌, ltb, Bool, true, false, not, ◌&&◌, Option, none, some, String, List, [],
  ◌∷◌, ◌++◌, map, length, if◌then◌else◌,
}
use go_mcp_gateway.Common.Dict
use go_mcp_gateway.Common.Dict.{Dict, values}
use go_mcp_gateway.Policy.Clock.{Time, minute}

pub record ServerConfig : Type 0 where
  pub command : String
  pub args : List String
  pub language : String

pub record Config : Type 0 where
  pub idle_timeout_min : ℕ
  pub request_timeout_sec : ℕ
  pub init_timeout_sec : ℕ
  pub server_configs : Dict ServerConfig

abbrev pub default_config : Config
default_config = record {
  idle_timeout_min = 15;
  request_timeout_sec = 10;
  init_timeout_sec = 30;
  server_configs =
      ("go", record { command = "gopls"; args = []; language = "go" })
      ∷ (
        "typescript",
        record {
          command = "typescript-language-server";
          args = "--stdio" ∷ [];
          language = "typescript";
        },
      )
      ∷ [];
}

-- Two sessions are the same if their handles are, as for the pointers of the source. `last_used` is
-- in nanoseconds since 1970, and 0 before the first request.
pub record Session : Type 0 where
  pub handle : ℕ
  pub last_used : ℕ
  pub in_flight : ℕ

-- The sessions, and the handle of the next one.
pub record Pool : Type 0 where
  pub cfg : Config
  pub sessions : Dict Session
  pub next : ℕ

unfoldable pub session_key : String → String → String
session_key language workspace_root = text_append (text_append language "|") workspace_root

-- `newSession`
abbrev pub new_session : ℕ → Session
new_session handle = record { handle = handle; last_used = 0; in_flight = 0 }

pub data StartError : Type 0 where
  binary_not_found no_pipe not_started : StartError

pub data Opened : Type 0 where
  opened : Session → Opened
  unsupported_language : String → Opened
  start_failed : StartError → Opened

-- The end of `GetOrCreate`, with the outcome of `start`.
abbrev pub after_start : String → Session → Option StartError → Pool → Pool × Opened
after_start key s none p = (p, opened s)
after_start key s (some e) p = (record p { sessions = Dict.delete key p.sessions }, start_failed e)

abbrev pub find_or_start : String → Option Session → Option StartError → Pool → Pool × Opened
find_or_start key (some s) start p = (p, opened s)
find_or_start key none start p =
    after_start key (new_session p.next) start
      (record p { sessions = Dict.insert key (new_session p.next) p.sessions; next = suc p.next })

abbrev pub open_for :
    String → String → Option ServerConfig → Option StartError → Pool → Pool × Opened
open_for language workspace_root none start p = (p, unsupported_language language)
open_for language workspace_root (some sc) start p =
    let key = session_key language workspace_root in
    find_or_start key (Dict.lookup key p.sessions) start p

unfoldable pub get_or_create : String → String → Option StartError → Pool → Pool × Opened
get_or_create language workspace_root start p =
    open_for language workspace_root (Dict.lookup language p.cfg.server_configs) start p

abbrev pub watched : String → ℕ → Option Session → Pool → Pool
watched key handle none p = p
watched key handle (some s) p =
    if s.handle == handle then record p { sessions = Dict.delete key p.sessions } else p

-- `watchSession` when the process of the session with the handle has ended.
unfoldable pub watch_session : String → ℕ → Pool → Pool
watch_session key handle p = watched key handle (Dict.lookup key p.sessions) p

-- The session that is shut down, if there is one.
unfoldable pub close : String → String → Pool → Pool × Option Session
close language workspace_root p =
    let key = session_key language workspace_root in
    (record p { sessions = Dict.delete key p.sessions }, Dict.lookup key p.sessions)

unfoldable pub session_count : Pool → ℕ
session_count p = length p.sessions

-- The pool without its sessions, and those to be shut down.
unfoldable pub shutdown : Pool → Pool × List Session
shutdown p = (record p { sessions = [] }, values p.sessions)

-- `s.idleSince().Before(cutoff) && !s.hasInFlight()`
unfoldable pub is_idle : Config → Time → Session → Bool
is_idle cfg now s = ltb (s.last_used + cfg.idle_timeout_min * minute) now && s.in_flight == 0

unfoldable pub sweep : Time → Pool → Pool × List Session
unfolding is_idle
sweep now p = (
  record p { sessions = Dict.retain (λ s. not (is_idle p.cfg now s)) p.sessions },
  values (Dict.retain (is_idle p.cfg now) p.sessions),
)

unfoldable pub supported_languages : Config → List String
supported_languages cfg = map (λ entry. entry.0) cfg.server_configs
