-- ===== src/Rest.antt =====
-- internal/rest/handlers.go and models.go. JSON, HTTP, the hash of a credential and the client of
-- internal/graft (which the repository does not hold) are parameters; the texts of details and the
-- tracing are left out.
pub mod Implements
pub mod Gate
use go_mcp_gateway.Common.{
  ℕ, Bool, true, false, not, ◌&&◌, Option, none, some, String, List, [], ◌∷◌, ◌++◌, name_eq,
  if◌then◌else◌,
}
use go_mcp_gateway.Common.Text.{Str, codes, is_empty, contains}
use go_mcp_gateway.Policy.Registry
use go_mcp_gateway.Policy.Registry.{Registry, Readings, Answer, pass, refused, panic}
use go_mcp_gateway.Router.{Tier, Complexity, RouteResult, Result, ok, err, route}
use go_mcp_gateway.Router.Classify.{ClassifyResult, classify}
use go_mcp_gateway.Router.Interpret.{QaVerdict, interpret}
use go_mcp_gateway.Manager.{Completed, completed, complete}
use go_mcp_gateway.Remote
use go_mcp_gateway.Remote.{RemoteResult, returned, raised}
use go_mcp_gateway.Serving.{LocalModel, Charging, is_local, first_text, charge}

-- The headers that are read, empty if they are missing, and the path.
pub record Request : Type 0 where
  pub path : String
  pub method : String
  pub content_type : Str
  pub session_header : String
  pub authorization : String

pub record ImplementRequest : Type 0 where
  pub task : Str
  pub files : List String
  pub reasoning_tags : List String
  pub force_tier : Tier

pub record InterpretRequest : Type 0 where
  pub vitest_output : Str
  pub diff : Str
  pub scenarios : List Str

pub record ImplementResponse : Type 0 where
  pub files_changed : List String
  pub status : String
  pub reasoning_tags : List String
  pub content : String
  pub total_tokens : ℕ

pub data Body : Type 0 where
  error_response : String → Body
  classify_response : ClassifyResult → Body
  implement_response : ImplementResponse → Body
  interpret_response : QaVerdict → Body

-- With the header `Allow`, and with `X-RateLimit-Remaining: 0` and `Retry-After: 60` or without.
pub record Response : Type 0 where
  pub status : ℕ
  pub allow : Option String
  pub throttled : Bool
  pub body : Body

-- `aborted` is a panic, after which net/http drops the connection.
pub data Reply : Type 0 where
  responded : Response → Reply
  aborted : Reply

abbrev pub write_error : ℕ → String → Reply
write_error status code =
    responded
      (record { status = status; allow = none; throttled = false; body = error_response code })

abbrev pub write_ok : Body → Reply
write_ok body = responded (record { status = 200; allow = none; throttled = false; body = body })

abbrev pub throttle : Reply
throttle =
    responded (record {
      status = 429;
      allow = none;
      throttled = true;
      body = error_response "rate_limited";
    })

unfoldable pub session_key : (String → String) → Request → String
session_key hash q =
    if not (name_eq q.session_header "")
    then q.session_header
    else if not (name_eq q.authorization "")
    then hash q.authorization
    else "rest-anonymous"

-- What a body decodes to; `none` is an error of the decoder.
pub record Bodies : Type 0 where
  pub classify_task : Option Str
  pub implement : Option ImplementRequest
  pub interpret : Option InterpretRequest

abbrev classify_reply : Result ClassifyResult → Reply
classify_reply (ok r) = write_ok (classify_response r)
classify_reply (err e) = write_error 500 "classify_error"

unfoldable pub handle_classify : Option Str → Reply
handle_classify none = write_error 400 "missing_task"
handle_classify (some task) =
    if is_empty task then write_error 400 "missing_task" else classify_reply (classify task)

abbrev interpret_reply : Result QaVerdict → Reply
interpret_reply (ok v) = write_ok (interpret_response v)
interpret_reply (err e) = write_error 500 "interpret_error"

unfoldable pub handle_interpret : Option InterpretRequest → Reply
handle_interpret none = write_error 400 "invalid_body"
handle_interpret (some q) = interpret_reply (interpret q.vitest_output q.diff q.scenarios)

-- The lookup of context for a task: no client, an error, or the context that was built.
pub data Graft : Type 0 where
  absent failed : Graft
  found : Str → Graft

unfoldable pub enrich : Graft → Str → Str
enrich absent task = task
enrich failed task = task
enrich (found context) task =
    if is_empty context then task else context ++ codes "\n## Task\n\n" ++ task

-- An adapter, by the task, the tier and the complexity; the resolver is missing, or knows a tier or
-- not.
abbrev pub Adapter : Type 0
Adapter = Str → Tier → Complexity → Remote.Answer RemoteResult

pub record World : Type 0 where
  pub readings : Readings
  pub graft : Graft
  pub model : LocalModel
  pub resolver : Option (Tier → Option Adapter)
  pub charging : Charging

-- A completion, or the status and the code of an error.
pub data Made : Type 0 where
  made : String → ℕ → Made
  not_made : ℕ → String → Made

abbrev from_completion : Completed → Made
from_completion (completed c) = made (first_text c.choices) c.total_tokens
from_completion (Completed.refused e) = not_made 500 "completion_error"

abbrev from_adapter : Remote.Answer RemoteResult → Made
from_adapter (returned r) = made r.content (Remote.total_tokens r)
from_adapter (raised e) = not_made 502 "remote_error"

abbrev from_resolver : Option Adapter → Str → Tier → Complexity → Made
from_resolver none task tier complexity = not_made 503 "tier_unavailable"
from_resolver (some do_remote) task tier complexity = from_adapter (do_remote task tier complexity)

abbrev from_remote : Option (Tier → Option Adapter) → Str → Tier → Complexity → Made
from_remote none task tier complexity = not_made 503 "no_resolver"
from_remote (some resolve) task tier complexity = from_resolver (resolve tier) task tier complexity

unfoldable pub make : World → Str → Tier → Complexity → Made
make w task tier complexity =
    if is_local tier
    then if w.model.loads
      then from_completion (complete w.model.resident (w.model.call task)).0
      else not_made 503 "model_not_loaded"
    else from_remote w.resolver task tier complexity

abbrev pub settle :
    Registry → String → ImplementRequest → World → RouteResult → Made → Registry × Reply
settle r sid q w rr (not_made status code) = (r, write_error status code)
settle r sid q w rr (made content tokens) = (
  charge r sid rr.tier w.charging tokens,
  write_ok (
      implement_response (record {
        files_changed = q.files;
        status = "complete";
        reasoning_tags = q.reasoning_tags ++ rr.reasoning_tags;
        content = content;
        total_tokens = tokens;
      })),
)

abbrev pub routed :
    Registry
    → String
    → ImplementRequest
    → World
    → Complexity
    → Result RouteResult
    → Registry × Reply
routed r sid q w complexity (err e) = (r, write_error 500 "route_error")
routed r sid q w complexity (ok rr) =
    settle r sid q w rr (make w (enrich w.graft q.task) rr.tier complexity)

abbrev pub classified :
    Registry → String → ImplementRequest → World → Result ClassifyResult → Registry × Reply
classified r sid q w (err e) = (r, write_error 500 "classify_error")
classified r sid q w (ok c) = routed r sid q w c.complexity (route c.complexity q.force_tier)

abbrev pub after_check : Registry → String → ImplementRequest → World → Answer → Registry × Reply
after_check r sid q w pass = classified r sid q w (classify q.task)
after_check r sid q w (refused e) = (r, throttle)
after_check r sid q w panic = (r, aborted)

unfoldable pub handle_implement :
    Registry → String → Option ImplementRequest → World → Registry × Reply
unfolding make enrich
handle_implement r sid none w = (r, write_error 400 "invalid_body")
handle_implement r sid (some q) w =
    let (checked, a) = Registry.check_session r sid w.readings in after_check checked sid q w a

-- `methodGate`; the handler behind it is run only if both tests pass.
unfoldable pub method_gate : String → Request → Registry → Registry × Reply → Registry × Reply
method_gate method q r next =
    if not (name_eq q.method method)
    then (
      r,
      responded (record {
        status = 405;
        allow = some method;
        throttled = false;
        body = error_response "method_not_allowed";
      }),
    )
    else if not (contains q.content_type (codes "application/json"))
    then (r, write_error 415 "unsupported_media_type")
    else next

unfoldable pub not_found : Request → Reply
not_found q = write_error 404 "not_found"

-- The routes of `RegisterRoutes`.
unfoldable pub serve : (String → String) → Registry → Request → Bodies → World → Registry × Reply
unfolding session_key handle_classify handle_implement handle_interpret method_gate not_found
serve hash r q bodies w =
    if name_eq q.path "/classify"
    then method_gate "POST" q r (r, handle_classify bodies.classify_task)
    else if name_eq q.path "/implement"
    then method_gate "POST" q r (handle_implement r (session_key hash q) bodies.implement w)
    else if name_eq q.path "/interpret"
    then method_gate "POST" q r (r, handle_interpret bodies.interpret)
    else (r, not_found q)
