-- ===== src/Remote/Resolver.antt =====
-- internal/remote/resolver.go, and the constructors of the adapters in deepseek.go, opus.go, glm.go and
-- openrouter_fallback.go.
pub mod Configured
use go_mcp_gateway.Common.{
  Bool, Option, none, some, String, List, [], ◌∷◌, map, if◌then◌else◌, name_eq,
}
use go_mcp_gateway.Common.Dict
use go_mcp_gateway.Common.Dict.{Dict}

-- `baseClient`
pub record BaseClient : Type 0 where
  pub name : String
  pub base_url : String
  pub api_key : String
  pub model : String
  pub headers : Dict String

pub data Adapter : Type 0 where
  deep_seek : BaseClient → Adapter
  opus : BaseClient → Adapter
  glm : BaseClient → Adapter
  open_router_fallback : String → Adapter
  with_fallback : Adapter → Adapter → Adapter

abbrev pub gateway_headers : Dict String
gateway_headers =
    ("HTTP-Referer", "https://github.com/dcotelessa/go-mcp-gateway")
    ∷ ("X-Title", "go-mcp-gateway")
    ∷ []

abbrev pub deep_seek_client : String → BaseClient
deep_seek_client key = record {
  name = "deepseek";
  base_url = "https://openrouter.ai/api/v1/chat/completions";
  api_key = key;
  model = "deepseek/deepseek-v4-flash";
  headers = gateway_headers;
}

abbrev pub opus_client : String → BaseClient
opus_client key = record {
  name = "claude_opus";
  base_url = "https://openrouter.ai/api/v1/chat/completions";
  api_key = key;
  model = "anthropic/claude-opus-5";
  headers = gateway_headers;
}

abbrev pub glm_client : String → BaseClient
glm_client key = record {
  name = "z_ai";
  base_url = "https://api.z.ai/api/coding/v1/chat/completions";
  api_key = key;
  model = "glm-5.3";
  headers = [];
}

-- The constructors; `none` is their error for an empty key.
abbrev pub new_deep_seek_adapter : String → Option Adapter
new_deep_seek_adapter key = if name_eq key "" then none else some (deep_seek (deep_seek_client key))

abbrev pub new_opus_adapter : String → Option Adapter
new_opus_adapter key = if name_eq key "" then none else some (opus (opus_client key))

abbrev pub new_glm_adapter : String → Option Adapter
new_glm_adapter key = if name_eq key "" then none else some (glm (glm_client key))

abbrev pub new_open_router_fallback_adapter : String → Option Adapter
new_open_router_fallback_adapter key =
    if name_eq key "" then none else some (open_router_fallback key)

-- A variable is read if the key is still empty. A variable that is not set reads as empty.
abbrev pub or_env : (String → String) → String → String → String
or_env env variable key = if name_eq key "" then env variable else key

unfoldable pub open_router_key : (String → String) → String
open_router_key env = or_env env "DEEPSEEK_API_KEY" (env "OPENROUTER_API_KEY")

unfoldable pub zai_key : (String → String) → String
zai_key env = or_env env "GLM_API_KEY" (or_env env "ZHIPU_API_KEY" (env "ZAI_API_KEY"))

abbrev pub both : Option Adapter → Option Adapter → Option Adapter
both (some primary) (some fallback) = some (with_fallback primary fallback)
both _ _ = none

-- One entry; an adapter that cannot be made ends the construction.
abbrev pub put : String → Option Adapter → Option (Dict Adapter) → Option (Dict Adapter)
put tier (some a) (some adapters) = some (Dict.insert tier a adapters)
put tier _ _ = none

-- The end of `NewResolver`, with its two keys.
abbrev pub build : String → String → Option (Dict Adapter)
build router zai =
    let fallback = new_open_router_fallback_adapter router in
    let empty : Option (Dict Adapter) = some [] in
    let with_router =
      if name_eq router ""
      then empty
      else put "remote_opus" (new_opus_adapter router)
          (put "remote_deepseek" (both (new_deep_seek_adapter router) fallback) empty) in
    if name_eq zai ""
    then with_router
    else if name_eq router ""
    then put "remote_glm" (new_glm_adapter zai) with_router
    else put "remote_glm" (both (new_glm_adapter zai) fallback) with_router

unfoldable pub new_resolver : (String → String) → Option (Dict Adapter)
unfolding open_router_key zai_key
new_resolver env = build (open_router_key env) (zai_key env)

-- `none` is the error for a tier without an adapter.
unfoldable pub resolve : Dict Adapter → String → Option Adapter
unfolding Dict.lookup
resolve adapters tier = Dict.lookup tier adapters

unfoldable pub available : Dict Adapter → List String
available adapters = map (λ entry. entry.0) adapters
