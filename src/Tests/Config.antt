-- ===== src/Tests/Config.antt =====
-- internal/config on concrete inputs.
use go_mcp_gateway.Common.{◌≡◌, ◌↔◌, refl, true, none, some, String, [], if◌then◌else◌, name_eq}
use go_mcp_gateway.Common.Int.{pos, negsuc, ◌≤ℤ◌}
use go_mcp_gateway.Common.Text.{Str, codes}
use go_mcp_gateway.Lsp.Framing.{value}
use go_mcp_gateway.Policy.Registry
use go_mcp_gateway.Policy.Registry.{Readings, panic, check_session}
use go_mcp_gateway.Config.{
  GatewayConfig, defaults, apply_env_overrides, scan_int, skip_space, leading_digits, validate,
  validate_models, policy_config,
}
use go_mcp_gateway.Config.Checked.{IsUsable, validate_lem, with_rate, zero_rate_accepted}

-- What follows the digits is not looked at, and a line feed is not skipped.
scanned : scan_int (codes " -12x") ≡ some (negsuc 11)
unfolding scan_int skip_space leading_digits value
scanned = refl

line_feed_refused : scan_int (codes "\n5") ≡ none
unfolding scan_int skip_space
line_feed_refused = refl

abbrev env : String → Str
env variable = if name_eq variable "LLAMA_SERVER_PATH" then codes "/bin/llama" else []

abbrev cfg : GatewayConfig
cfg = apply_env_overrides env defaults

validate_lem_example : (validate (λ path. true) cfg ≡ none) ↔ IsUsable (λ path. true) cfg
validate_lem_example = validate_lem (λ path. true) cfg

cfg_accepted : validate (λ path. true) cfg ≡ none
unfolding validate validate_models apply_env_overrides
cfg_accepted = refl

abbrev readings : Readings
readings = record { created = 5; now = 5; rate_clock = 6; token_clock = 6 }

zero_rate_accepted_example :
    (validate (λ path. true) (with_rate (pos 0) cfg) ≡ validate (λ path. true) cfg)
    × (((check_session (Registry.new (policy_config (with_rate (pos 0) cfg))) "s" readings).1
          ≡ panic)
        ↔ (pos 0 ≤ℤ pos 0))
zero_rate_accepted_example = zero_rate_accepted (λ path. true) cfg (pos 0) "s" readings
