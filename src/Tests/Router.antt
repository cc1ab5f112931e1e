-- ===== src/Tests/Router.antt =====
-- internal/router on concrete inputs.
use go_mcp_gateway.Common.{◌≡◌, refl, ◌∷◌}
use go_mcp_gateway.Common.Text.{Str, codes}
use go_mcp_gateway.Router.{tier_local_ornith, tier_remote_glm, next_tier_up, route, ok}
use go_mcp_gateway.Router.Chains.{Walks, stay, go, Escalates}
use go_mcp_gateway.Router.Routing.{IsComplexity, intended_tier, resolved, qa_of, classify_routes}
use go_mcp_gateway.Router.Classify.{ClassifyResult, classify}

from_ornith : Walks Escalates tier_local_ornith 2 tier_remote_glm
unfolding next_tier_up
from_ornith = go refl (go refl stay)

abbrev task : Str
task = codes "efactor across files"

classify_routes_example :
    (r : ClassifyResult) × (classify (b'r' ∷ task) ≡ ok r)
    × (k : IsComplexity r.complexity) × (r.qa_level ≡ qa_of k)
    × (route r.complexity "" ≡ resolved (intended_tier k) "")
classify_routes_example = classify_routes b'r' task ""
