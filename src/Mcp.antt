-- ===== src/Mcp.antt =====
-- internal/mcp/handlers.go: the tools route_complete, budget_status and rate_status. The MCP package
-- hands over the arguments and the session; the tools of the language servers are left out.
pub mod Completes
pub mod Status
use Prim.Native.String.{◌++◌ as text_append}
use go_mcp_gateway.Common.{
  ℕ, ◌/◌, Bool, true, false, not, ◌&&◌, Option, none, some, String, List, [], ◌∷◌, ◌++◌, map,
  name_eq, length, if◌then◌else◌, zero, suc, ◌||◌,
}
use go_mcp_gateway.Common.Int.{ℤ, pos, negsuc}
use go_mcp_gateway.Common.Text.{Str}
use go_mcp_gateway.Policy.Registry
use go_mcp_gateway.Policy.Registry.{Registry, Readings, Answer, pass, refused, panic, PolicyError}
use go_mcp_gateway.Router.{
  Tier, Complexity, RouteResult, RouterError, Result, ok, err, route, route_fallback,
  tier_local_ornith, tier_local_qwen, tier_remote_deep_seek, tier_remote_glm,
}
use go_mcp_gateway.Manager.{ResidentState, Call, Completed, completed, CompletionError, complete}
use go_mcp_gateway.Serving.{LocalModel, Charging, is_local, first_text, charge, is_pass}

-- A value that a client sends for an argument.
pub data Argument : Type 0 where
  text : String → Argument
  other : Argument

-- A missing argument, or one that is no text, reads as the empty text.
unfoldable pub get_string : Option Argument → String
get_string none = ""
get_string (some (text s)) = s
get_string (some other) = ""

-- `none` is a context without a session.
unfoldable pub session_id : Option String → String
session_id none = "anonymous"
session_id (some id) = if name_eq id "" then "anonymous" else id

-- The arguments of route_complete. It takes the session from the context only.
pub record RouteComplete : Type 0 where
  pub task : Str
  pub complexity : Complexity
  pub force_tier : Tier

-- `routed` and `generated`: the text of a completion, or the placeholder for a remote tier.
pub data Content : Type 0 where
  local : String → Content
  remote_placeholder : Tier → Str → Content

pub record RouteCompleteResult : Type 0 where
  pub content : Content
  pub tier : Tier
  pub complexity : Complexity
  pub reasoning_tags : List String
  pub total_tokens : ℕ

-- The errors that the client is told, in the order of the checks.
pub data ToolError : Type 0 where
  rate_limited : PolicyError → List String → ToolError
  not_routed : RouterError → ToolError
  all_tiers_unavailable : ToolError
  model_not_loaded : ToolError
  not_completed : CompletionError → ToolError
  cancelled : ToolError

pub data Reply : Type 0 where
  served : RouteCompleteResult → Reply
  failed : ToolError → Reply
  panicked : Reply

-- What the handler meets on the way.
pub record World : Type 0 where
  pub readings : Readings
  pub model : LocalModel
  pub cancelled : Bool
  pub charging : Charging

unfoldable pub fallback_tag : Tier → Tier → String
fallback_tag from to = text_append (text_append (text_append "fallback_tier_" from) "_to_") to

pub data Chosen : Type 0 where
  chosen : RouteResult → Chosen
  not_chosen : ToolError → Chosen

-- One step down the chain of fallbacks; the budget of the next tier is not looked at.
abbrev pub fall_back : RouteResult → Option Tier → Chosen
fall_back rr none = not_chosen all_tiers_unavailable
fall_back rr (some next) =
    chosen
      (record { tier = next; reasoning_tags = rr.reasoning_tags ++ fallback_tag rr.tier next ∷ [] })

abbrev pub choose_from : Registry → Result RouteResult → Chosen
choose_from r (err e) = not_chosen (not_routed e)
choose_from r (ok rr) =
    if is_pass (Registry.check_tier r rr.tier)
    then chosen rr
    else fall_back rr (route_fallback rr.tier)

unfoldable pub choose : Registry → RouteComplete → Chosen
choose r req = choose_from r (route req.complexity req.force_tier)

pub data Generated : Type 0 where
  generated : Content → ℕ → Generated
  not_generated : ToolError → Generated

abbrev pub from_completion : Completed → Generated
from_completion (completed c) = generated (local (first_text c.choices)) c.total_tokens
from_completion (Completed.refused e) = not_generated (not_completed e)

-- `len(task) / 4` stands in for the tokens of a remote tier.
unfoldable pub generate : LocalModel → Str → Tier → Generated
generate m task tier =
    if is_local tier
    then if m.loads
      then from_completion (complete m.resident (m.call task)).0
      else not_generated model_not_loaded
    else generated (remote_placeholder tier task) (length task / 4)

-- The end of the handler, with the tokens known.
abbrev pub settle :
    Registry → String → RouteComplete → World → RouteResult → Generated → Registry × Reply
settle r sid req w rr (not_generated e) = (r, failed e)
settle r sid req w rr (generated content tokens) =
    if w.cancelled then (r, failed ToolError.cancelled) else (
      charge r sid rr.tier w.charging tokens,
      served (record {
        content = content;
        tier = rr.tier;
        complexity = req.complexity;
        reasoning_tags = rr.reasoning_tags;
        total_tokens = tokens;
      }),
    )

abbrev pub dispatch : Registry → String → RouteComplete → World → Chosen → Registry × Reply
dispatch r sid req w (not_chosen e) = (r, failed e)
dispatch r sid req w (chosen rr) = settle r sid req w rr (generate w.model req.task rr.tier)

abbrev pub after_check : Registry → String → RouteComplete → World → Answer → Registry × Reply
after_check r sid req w pass = dispatch r sid req w (choose r req)
after_check r sid req w (refused e) = (r, failed (rate_limited e (Registry.reasoning_tags e)))
after_check r sid req w panic = (r, panicked)

unfoldable pub route_complete : Registry → String → RouteComplete → World → Registry × Reply
unfolding choose generate
route_complete r sid req w =
    let (checked, a) = Registry.check_session r sid w.readings in after_check checked sid req w a

pub record TierBudgetStatus : Type 0 where
  pub tier : String
  pub currency : String
  pub limit : ℤ
  pub remaining : ℤ

abbrev pub slot : Option ResidentState → String → ℤ
slot none tier = pos 0
slot (some r) tier = if not (name_eq r.tier tier) || r.swapping then pos 0 else pos 1

unfoldable pub local_slot_remaining : Option ResidentState → String → ℤ
local_slot_remaining o tier = slot o tier

-- `remaining == -1`
abbrev pub is_minus_one : ℤ → Bool
is_minus_one (pos n) = false
is_minus_one (negsuc zero) = true
is_minus_one (negsuc (suc n)) = false

unfoldable pub status_of : Registry → Option ResidentState → String → TierBudgetStatus
unfolding local_slot_remaining
status_of r o tier =
    let remaining = Registry.tier_remaining r tier in
    if is_minus_one remaining
    then record {
      tier = tier;
      currency = "vram_slot";
      limit = pos 1;
      remaining = local_slot_remaining o tier;
    }
    else record { tier = tier; currency = "tokens"; limit = negsuc 0; remaining = remaining }

unfoldable pub budget_status : Registry → Option ResidentState → String → List TierBudgetStatus
unfolding status_of
budget_status r o filter_tier = map (status_of r o) (
    if name_eq filter_tier ""
    then tier_local_ornith ∷ tier_local_qwen ∷ tier_remote_deep_seek ∷ tier_remote_glm ∷ []
    else filter_tier ∷ [])

pub record RateStatusResult : Type 0 where
  pub session : String
  pub blocked : Bool
  pub block_reason : Option PolicyError

abbrev pub reason_of : Answer → Option PolicyError
reason_of pass = none
reason_of (refused e) = some e
reason_of panic = none

-- It runs the check, which counts as a request. A panic of the check is that of the tool.
unfoldable pub rate_status :
    Registry → String → Option String → Readings → Registry × Option RateStatusResult
unfolding session_id
rate_status r argument context t =
    let sid = if name_eq argument "" then session_id context else argument in
    let (checked, a) = Registry.check_session r sid t in
    (
      checked,
      elim a [
        | pass ↦ some (record { session = sid; blocked = false; block_reason = none })
        | refused e ↦ some (record { session = sid; blocked = true; block_reason = some e })
        | panic ↦ none
      ],
    )
