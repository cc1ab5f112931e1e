-- ===== src/Config.antt =====
-- internal/config, and what cmd/gateway/main.go makes of it for internal/policy. YAML is a parameter,
-- and the telemetry section is left out.
pub mod Checked
use go_mcp_gateway.Common.{
  ℕ, ◌+◌, ◌*◌, ◌-◌, ◌^◌, ◌==◌, ltb, leb, Bool, true, false, not, ◌&&◌, ◌||◌, Option, none, some,
  String, List, [], ◌∷◌, if◌then◌else◌, ◌⊎◌, inl, inr,
}
use go_mcp_gateway.Common.Dict.{Dict}
use go_mcp_gateway.Common.Int.{ℤ, pos, negsuc, sub_ℕ, ltb_ℤ}
use go_mcp_gateway.Common.Text.{Str, codes, is_empty, is_space}
use go_mcp_gateway.Lsp.Framing.{is_digit, value}
use go_mcp_gateway.Policy.Registry.{PolicyConfig}

pub record LlamaServerConfig : Type 0 where
  pub exec_path : Str
  pub health_timeout_sec : ℤ
  pub stop_timeout_sec : ℤ
  pub log_dir : Str

pub record ModelConfig : Type 0 where
  pub path : Str
  pub vram_requirement_mib : ℤ
  pub extra_args : List Str
  pub port : ℤ

pub record RemoteApiConfig : Type 0 where
  pub deep_seek_api_key : Str
  pub deep_seek_base_url : Str
  pub glm_api_key : Str
  pub glm_base_url : Str

-- `PolicyConfig` of internal/config.
pub record Limits : Type 0 where
  pub budget_deep_seek_daily : ℤ
  pub budget_glm_daily : ℤ
  pub session_rate_per_min : ℤ
  pub session_tokens_per_hour : ℤ
  pub session_idle_ttl_min : ℤ
  pub budget_sweep_interval_min : ℤ

pub record LspConfig : Type 0 where
  pub idle_timeout_min : ℤ
  pub request_timeout_sec : ℤ
  pub init_timeout_sec : ℤ

-- The sections with one or two numbers stand here field by field.
pub record GatewayConfig : Type 0 where
  pub server_port : ℤ
  pub mcp_session_idle_ttl_minutes : ℤ
  pub mcp_endpoint_path : Str
  pub llama_server : LlamaServerConfig
  pub vram_total_mib : ℤ
  pub vram_reserved_mib : ℤ
  pub models : Dict ModelConfig
  pub remote_apis : RemoteApiConfig
  pub policy : Limits
  pub lsp : LspConfig
  pub rest_shutdown_drain_sec : ℤ

abbrev pub defaults : GatewayConfig
defaults = record {
  server_port = pos 8080;
  mcp_session_idle_ttl_minutes = pos 30;
  mcp_endpoint_path = codes "/mcp";
  llama_server = record {
    exec_path = [];
    health_timeout_sec = pos 60;
    stop_timeout_sec = pos 10;
    log_dir = codes "./logs";
  };
  vram_total_mib = pos 16311;
  vram_reserved_mib = pos 1024;
  models = [];
  remote_apis = record {
    deep_seek_api_key = [];
    deep_seek_base_url = [];
    glm_api_key = [];
    glm_base_url = [];
  };
  policy = record {
    budget_deep_seek_daily = pos 1000000;
    budget_glm_daily = pos 500000;
    session_rate_per_min = pos 20;
    session_tokens_per_hour = pos 200000;
    session_idle_ttl_min = pos 30;
    budget_sweep_interval_min = pos 5;
  };
  lsp = record {
    idle_timeout_min = pos 15;
    request_timeout_sec = pos 10;
    init_timeout_sec = pos 30;
  };
  rest_shutdown_drain_sec = pos 10;
}

-- `fmt.Sscanf` with `%d`: spaces but no line feed, a sign, and digits, in the range of int64; what
-- follows is not looked at. `none` is its error.
unfoldable pub skip_space : Str → Option Str
skip_space [] = some []
skip_space (c ∷ s) =
    let rest = skip_space s in if c == 10 then none else if is_space c then rest else some (c ∷ s)

unfoldable pub leading_digits : Str → Str
leading_digits [] = []
leading_digits (c ∷ s) = let rest = leading_digits s in if is_digit c then c ∷ rest else []

abbrev pub magnitude : Str → Option ℕ
magnitude [] = none
magnitude (c ∷ s) = value 0 (c ∷ s)

abbrev pub in_range : Bool → Option ℕ → Option ℤ
in_range negative none = none
in_range true (some n) = if leb n (2 ^ 63) then some (sub_ℕ 0 n) else none
in_range false (some n) = if ltb n (2 ^ 63) then some (pos n) else none

abbrev pub signed : Option Str → Option ℤ
signed none = none
signed (some []) = none
signed (some (c ∷ s)) =
    if c == b'-'
    then in_range true (magnitude (leading_digits s))
    else if c == b'+'
    then in_range false (magnitude (leading_digits s))
    else in_range false (magnitude (leading_digits (c ∷ s)))

unfoldable pub scan_int : Str → Option ℤ
unfolding skip_space leading_digits value
scan_int s = signed (skip_space s)

abbrev pub or_zero : Option ℤ → ℤ
or_zero none = pos 0
or_zero (some n) = n

-- The environment; a variable that is not set reads as empty.
unfoldable pub env_int : (String → Str) → String → ℤ
unfolding scan_int
env_int env key = if is_empty (env key) then pos 0 else or_zero (scan_int (env key))

-- `if v := …; v != ""` and `v > 0`.
abbrev pub override_text : Str → Str → Str
override_text v old = if is_empty v then old else v

abbrev pub override_int : ℤ → ℤ → ℤ
override_int v old = if ltb_ℤ (pos 0) v then v else old

abbrev pub override_limits : (String → Str) → Limits → Limits
override_limits env p = record {
  budget_deep_seek_daily =
      override_int (env_int env "BUDGET_DEEPSEEK_DAILY") p.budget_deep_seek_daily;
  budget_glm_daily = override_int (env_int env "BUDGET_GLM_DAILY") p.budget_glm_daily;
  session_rate_per_min = override_int (env_int env "SESSION_RATE_PER_MIN") p.session_rate_per_min;
  session_tokens_per_hour =
      override_int (env_int env "SESSION_TOKENS_PER_HOUR") p.session_tokens_per_hour;
  session_idle_ttl_min = override_int (env_int env "SESSION_IDLE_TTL_MIN") p.session_idle_ttl_min;
  budget_sweep_interval_min =
      override_int (env_int env "BUDGET_SWEEP_INTERVAL_MIN") p.budget_sweep_interval_min;
}

unfoldable pub apply_env_overrides : (String → Str) → GatewayConfig → GatewayConfig
unfolding env_int
apply_env_overrides env cfg = record cfg {
  remote_apis = record cfg.remote_apis {
    deep_seek_api_key = override_text (env "DEEPSEEK_API_KEY") cfg.remote_apis.deep_seek_api_key;
    glm_api_key = override_text (env "GLM_API_KEY") cfg.remote_apis.glm_api_key;
  };
  llama_server = record cfg.llama_server {
    exec_path = override_text (env "LLAMA_SERVER_PATH") cfg.llama_server.exec_path;
  };
  policy = override_limits env cfg.policy;
}

-- The value of the flag, which is empty if there is none, and whether ./config.yaml exists.
unfoldable pub resolve_config_path : (String → Str) → Str → Bool → Str
resolve_config_path env config_flag present =
    if not (is_empty config_flag)
    then config_flag
    else if not (is_empty (env "GATEWAY_CONFIG"))
    then env "GATEWAY_CONFIG"
    else if present
    then codes "config.yaml"
    else []

-- What comes of a file: it cannot be read or parsed, or it sets fields of a configuration.
pub data File : Type 0 where
  unreadable unparseable : File
  sets : (GatewayConfig → GatewayConfig) → File

pub data LoadError : Type 0 where
  not_read not_parsed : LoadError

abbrev pub from_file : (String → Str) → File → GatewayConfig ⊎ LoadError
from_file env unreadable = inr not_read
from_file env unparseable = inr not_parsed
from_file env (sets f) = inl (apply_env_overrides env (f defaults))

unfoldable pub load : (String → Str) → Str → Bool → (Str → File) → GatewayConfig ⊎ LoadError
unfolding apply_env_overrides resolve_config_path
load env config_flag present files =
    let path = resolve_config_path env config_flag present in
    if is_empty path then inl (apply_env_overrides env defaults) else from_file env (files path)

pub data ConfigError : Type 0 where
  exec_path_required exec_path_not_found : ConfigError
  model_without_path model_not_found : String → ConfigError
  deep_seek_key_missing glm_key_missing : ConfigError

-- `exists` is whether `os.Stat` returns no error. The models are looked at in the order of the list;
-- Go takes any order, and so reports any of several faulty models.
unfoldable pub validate_models : (Str → Bool) → Dict ModelConfig → Option ConfigError
validate_models exists [] = none
validate_models exists ((tier, m) ∷ models) =
    let rest = validate_models exists models in
    if is_empty m.path
    then some (model_without_path tier)
    else if not (exists m.path)
    then some (model_not_found tier)
    else rest

abbrev pub validate_keys : RemoteApiConfig → Option ConfigError
validate_keys r =
    if not (is_empty r.deep_seek_base_url) && is_empty r.deep_seek_api_key
    then some deep_seek_key_missing
    else if not (is_empty r.glm_base_url) && is_empty r.glm_api_key
    then some glm_key_missing
    else none

abbrev pub or_else : Option ConfigError → Option ConfigError → Option ConfigError
or_else none next = next
or_else (some e) next = some e

unfoldable pub validate : (Str → Bool) → GatewayConfig → Option ConfigError
unfolding validate_models
validate exists cfg =
    if is_empty cfg.llama_server.exec_path
    then some exec_path_required
    else if not (exists cfg.llama_server.exec_path)
    then some exec_path_not_found
    else or_else (validate_models exists cfg.models) (validate_keys cfg.remote_apis)

-- The configuration that `main` passes to `policy.New`.
unfoldable pub policy_config : GatewayConfig → PolicyConfig
policy_config cfg = record {
  rate_limit_per_min = cfg.policy.session_rate_per_min;
  token_limit_per_hour = cfg.policy.session_tokens_per_hour;
  session_idle_ttl_min = cfg.policy.session_idle_ttl_min;
  sweep_interval_min = cfg.policy.budget_sweep_interval_min;
  budget_deep_seek_daily = cfg.policy.budget_deep_seek_daily;
  budget_glm_daily = cfg.policy.budget_glm_daily;
}
