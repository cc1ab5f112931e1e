-- ===== src/Tests/Handlers.antt =====
-- internal/mcp and internal/rest on concrete inputs.
use go_mcp_gateway.Common.{◌≡◌, ◌≢◌, ◌⊎◌, true, false, none, some, String, [], ◌∷◌}
use go_mcp_gateway.Common.Dict
use go_mcp_gateway.Common.Int.{pos, negsuc}
use go_mcp_gateway.Common.Text.{codes, contains}
use go_mcp_gateway.Policy.TierBudget.{TierBudget}
use go_mcp_gateway.Policy.Registry
use go_mcp_gateway.Policy.Registry.{
  Registry, Readings, pass, panic, refused, default_policy_config, check_session, check_tier,
  get_or_create_session, check_bucket, after_rate, PolicyError, reasoning_tags,
}
use go_mcp_gateway.Manager.{ResidentState, Completion, answered}
use go_mcp_gateway.Serving.{LocalModel, Charging}
use go_mcp_gateway.Mcp
use go_mcp_gateway.Mcp.{
  RouteComplete, remote_placeholder, local, served, fallback_tag, route_complete, status_of,
  rate_status,
}
use go_mcp_gateway.Mcp.Completes.{Serves, Fails, route_complete_lem}
use go_mcp_gateway.Mcp.Status.{AsSlot, status_of_lem}
use go_mcp_gateway.Rest
use go_mcp_gateway.Rest.{
  ImplementRequest, Request, Bodies, handle_implement, serve, session_key, throttle, aborted,
}
use go_mcp_gateway.Rest.Implements
use go_mcp_gateway.Rest.Implements.{Completes, handle_implement_lem}
use go_mcp_gateway.Rest.Gate.{serve_lem}

-- Both remote budgets are used up, that of deepseek by one token more than it had.
abbrev glm_budget : TierBudget
glm_budget = record {
  tier = "remote_glm";
  daily_limit = pos 100;
  remaining = pos 0;
  deductions = [];
}

abbrev deep_seek_budget : TierBudget
deep_seek_budget = record {
  tier = "remote_deepseek";
  daily_limit = pos 100;
  remaining = negsuc 0;
  deductions = [];
}

abbrev registry : Registry
registry = record {
  cfg = default_policy_config;
  sessions = [];
  tiers = ("remote_glm", glm_budget) ∷ ("remote_deepseek", deep_seek_budget) ∷ [];
}

abbrev readings : Readings
readings = record { created = 20; now = 20; rate_clock = 20; token_clock = 20 }

abbrev charging : Charging
charging = record { created = 20; session_now = 30; tier_held = false; tier_now = 30 }

abbrev ornith : ResidentState
ornith = record {
  tier = "local_ornith";
  model_path = "/o";
  port = "8082";
  pid = 7;
  started_at = 1;
  api_key = "k";
  swapping = false;
}

abbrev completion : Completion
completion = record {
  choices = "hi" ∷ [];
  prompt_tokens = 3;
  completion_tokens = 4;
  total_tokens = 7;
}

abbrev model : LocalModel
model = record {
  loads = true;
  resident = some ornith;
  call = λ prompt. answered 200 (some completion);
}

abbrev world : Mcp.World
world = record { readings = readings; model = model; cancelled = false; charging = charging }

abbrev to_qwen : RouteComplete
to_qwen = record { task = codes "rename it"; complexity = "text_op"; force_tier = "" }

route_complete_lem_example :
    let (checked, a) = check_session registry "s" readings in
    (a ≡ pass)
      × (Serves checked "s" to_qwen world (route_complete registry "s" to_qwen world)
          ⊎ Fails checked to_qwen world (route_complete registry "s" to_qwen world))
    ⊎ ((x : PolicyError) × (a ≡ refused x)
        × (route_complete registry "s" to_qwen world
            ≡ (checked, Mcp.failed (Mcp.ToolError.rate_limited x (reasoning_tags x)))))
    ⊎ (a ≡ panic) × (route_complete registry "s" to_qwen world ≡ (checked, Mcp.panicked))
route_complete_lem_example = route_complete_lem registry "s" to_qwen world

status_of_lem_example :
    (Dict.lookup "remote_deepseek" registry.tiers ≡ none)
      × AsSlot none "remote_deepseek" (status_of registry none "remote_deepseek")
    ⊎ ((b : TierBudget) × (Dict.lookup "remote_deepseek" registry.tiers ≡ some b)
        × ((b.remaining ≢ negsuc 0)
              × (status_of registry none "remote_deepseek" ≡ record {
                tier = "remote_deepseek";
                currency = "tokens";
                limit = negsuc 0;
                remaining = b.remaining;
              })
            ⊎ (b.remaining ≡ negsuc 0)
              × AsSlot none "remote_deepseek" (status_of registry none "remote_deepseek")))
status_of_lem_example = status_of_lem registry none "remote_deepseek"

abbrev rest_world : Rest.World
rest_world = record {
  readings = readings;
  graft = Rest.found (codes "ctx");
  model = model;
  resolver = none;
  charging = charging;
}

abbrev body : ImplementRequest
body = record {
  task = codes "rename it";
  files = "a.go" ∷ [];
  reasoning_tags = [];
  force_tier = "local_qwen";
}

handle_implement_lem_example :
    let (checked, a) = check_session registry "s" readings in
    (a ≡ pass)
      × (Completes checked "s" body rest_world
            (handle_implement registry "s" (some body) rest_world)
          ⊎ Implements.Fails checked body rest_world
              (handle_implement registry "s" (some body) rest_world))
    ⊎ ((e : Registry.PolicyError) × (a ≡ refused e)
        × (handle_implement registry "s" (some body) rest_world ≡ (checked, throttle)))
    ⊎ (a ≡ panic) × (handle_implement registry "s" (some body) rest_world ≡ (checked, aborted))
handle_implement_lem_example = handle_implement_lem registry "s" body rest_world

abbrev post : Request
post = record {
  path = "/implement";
  method = "POST";
  content_type = codes "application/json; charset=utf-8";
  session_header = "";
  authorization = "Bearer x";
}

abbrev bodies : Bodies
bodies = record { classify_task = none; implement = some body; interpret = none }

abbrev hash : String → String
hash s = "rest-auth-0011223344556677"

serve_lem_example :
    ((serve hash registry post bodies rest_world).0 ≡ registry)
    ⊎ ((b : ImplementRequest) × (post.path ≡ "/implement")
        × (post.method ≡ "POST")
        × (contains post.content_type (codes "application/json") ≡ true)
        × (bodies.implement ≡ some b)
        × (serve hash registry post bodies rest_world
            ≡ handle_implement registry (session_key hash post) (some b) rest_world))
serve_lem_example = serve_lem hash registry post bodies rest_world
