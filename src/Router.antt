-- ===== src/Router.antt =====
-- internal/router/tiers.go, router.go and nexttier.go: tiers, routing, the fallback chain and the
-- escalation ladder. `Tier` and `Complexity` are open string types in the source, so they are names
-- here; a Go map is an association list. The proofs stand in the children.
pub mod Classify
pub mod Interpret
pub mod Chains
pub mod Routing
pub mod Verdicts
use go_mcp_gateway.Common.Dict.{lookup}
use go_mcp_gateway.Common.{String, List, [], ◌∷◌, Option, none, some, Bool, name_eq, if◌then◌else◌}

abbrev pub Tier : Type 0
Tier = String

abbrev pub Complexity : Type 0
Complexity = String

abbrev pub tier_local_ornith : Tier
tier_local_ornith = "local_ornith"

abbrev pub tier_local_qwen : Tier
tier_local_qwen = "local_qwen"

abbrev pub tier_remote_deep_seek : Tier
tier_remote_deep_seek = "remote_deepseek"

abbrev pub tier_remote_glm : Tier
tier_remote_glm = "remote_glm"

abbrev pub tier_remote_opus : Tier
tier_remote_opus = "remote_opus"

abbrev pub complexity_scaffold : Complexity
complexity_scaffold = "scaffold"

abbrev pub complexity_single_file : Complexity
complexity_single_file = "single_file"

abbrev pub complexity_multi_file : Complexity
complexity_multi_file = "multi_file"

abbrev pub complexity_recovery : Complexity
complexity_recovery = "recovery"

abbrev pub complexity_text_op : Complexity
complexity_text_op = "text_op"

pub data QaLevel : Type 0 where
  skip typecheck full : QaLevel

pub record RouteResult : Type 0 where
  pub tier : Tier
  pub reasoning_tags : List String

pub data RouterError : Type 0 where
  unknown_complexity : Complexity → RouterError
  no_tier_mapping : Complexity → RouterError
  empty_task : RouterError

pub data Result {ℓ} (A : Type ℓ) : Type ℓ where
  ok : A → Result A
  err : RouterError → Result A

unfoldable pub complexity_to_tier : List (Complexity × Tier)
complexity_to_tier =
    (complexity_scaffold, tier_local_qwen)
    ∷ (complexity_single_file, tier_local_qwen)
    ∷ (complexity_recovery, tier_local_qwen)
    ∷ (complexity_text_op, tier_local_qwen)
    ∷ (complexity_multi_file, tier_remote_deep_seek)
    ∷ []

unfoldable pub fallback_chain : List (Tier × Tier)
fallback_chain =
    (tier_remote_glm, tier_remote_deep_seek) ∷ (tier_remote_deep_seek, tier_local_ornith) ∷ []

unfoldable pub valid_complexities : List (Complexity × Unit {0})
valid_complexities =
    (complexity_scaffold, tt)
    ∷ (complexity_single_file, tt)
    ∷ (complexity_multi_file, tt)
    ∷ (complexity_recovery, tt)
    ∷ (complexity_text_op, tt)
    ∷ []

-- The lookup of the tier, after the two early returns.
mapped_route : Complexity → Option Tier → Result RouteResult
mapped_route complexity none = err (no_tier_mapping complexity)
mapped_route complexity (some tier) = ok (record { tier = tier; reasoning_tags = [] })

checked_route : Complexity → Tier → Option (Unit {0}) → Result RouteResult
unfolding mapped_route
checked_route complexity force_tier none = err (unknown_complexity complexity)
checked_route complexity force_tier (some _) =
    if name_eq force_tier ""
    then mapped_route complexity (lookup complexity complexity_to_tier)
    else ok (record { tier = force_tier; reasoning_tags = "forced_tier" ∷ [] })

unfoldable pub route : Complexity → Tier → Result RouteResult
unfolding checked_route lookup complexity_to_tier valid_complexities
route complexity force_tier =
    checked_route complexity force_tier (lookup complexity valid_complexities)

-- `none` is the pair ("", false).
unfoldable pub route_fallback : Tier → Option Tier
unfolding lookup fallback_chain
route_fallback from_tier = lookup from_tier fallback_chain

unfoldable pub escalation : List (Tier × Tier)
escalation =
    (tier_local_ornith, tier_remote_deep_seek)
    ∷ (tier_local_qwen, tier_remote_deep_seek)
    ∷ (tier_remote_deep_seek, tier_remote_glm)
    ∷ []

unfoldable pub next_tier_up : Tier → Option Tier
unfolding lookup escalation
next_tier_up tier = lookup tier escalation
