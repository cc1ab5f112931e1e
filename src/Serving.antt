-- ===== src/Serving.antt =====
-- What internal/mcp/handlers.go and internal/rest/handlers.go both do around a completion: the local
-- model, the charge afterwards, and the readings of the clock on the way.
pub mod Answers
use go_mcp_gateway.Common.{ℕ, Bool, true, false, ◌||◌, Option, String, List, [], ◌∷◌, name_eq}
use go_mcp_gateway.Common.Int.{pos}
use go_mcp_gateway.Common.Text.{Str}
use go_mcp_gateway.Policy.Clock.{Time}
use go_mcp_gateway.Policy.Registry
use go_mcp_gateway.Policy.Registry.{Registry, Readings, Answer, pass, refused, panic}
use go_mcp_gateway.Router.{Tier, tier_local_ornith, tier_local_qwen}
use go_mcp_gateway.Manager.{ResidentState, Call}

-- The manager as a request meets it: whether `EnsureLoaded` returns without an error, the resident
-- when `Complete` reads it, which another request may have changed, and what comes of a prompt.
pub record LocalModel : Type 0 where
  pub loads : Bool
  pub resident : Option ResidentState
  pub call : Str → Call

-- The clock and the lock during the two deductions.
pub record Charging : Type 0 where
  pub created : Time
  pub session_now : Time
  pub tier_held : Bool
  pub tier_now : Time

abbrev pub is_local : Tier → Bool
is_local tier = name_eq tier tier_local_ornith || name_eq tier tier_local_qwen

-- `resp.Choices[0]`, or no text.
abbrev pub first_text : List String → String
first_text [] = ""
first_text (text ∷ _) = text

-- `DeductSession` and `DeductTier`.
unfoldable pub charge : Registry → String → Tier → Charging → ℕ → Registry
charge r session_id tier t tokens =
    Registry.deduct_tier (Registry.deduct_session r session_id t.created t.session_now (pos tokens))
      tier t.tier_held t.tier_now (pos tokens)

-- A check that reports no error.
abbrev pub is_pass : Answer → Bool
is_pass pass = true
is_pass (refused e) = false
is_pass panic = false
