-- ===== src/Serving/Answers.antt =====
-- When the local model answers a handler of internal/mcp or internal/rest.
use go_mcp_gateway.Common.{
  ℕ, ◌≡◌, refl, ◌⊎◌, inl, inr, ◌↔◌, arith, ◌==◌, ==_iff, true, Bool-cases, Option, none, some,
  eq_iff,
}
use go_mcp_gateway.Common.Text.{Str}
use go_mcp_gateway.Router.{Tier}
use go_mcp_gateway.Manager.{
  ResidentState, Completion, Call, answered, not_encoded, not_built, not_sent, completed, complete,
}
use go_mcp_gateway.Serving.{LocalModel, is_local}

abbrev pub IsLocal : Tier → Type 0
IsLocal tier = (tier ≡ "local_ornith") ⊎ (tier ≡ "local_qwen")

pub is_local-IsLocal : (tier : Tier) → (is_local tier ≡ true) ↔ IsLocal tier
is_local-IsLocal tier = ground (arith, eq_iff tier "local_ornith", eq_iff tier "local_qwen")

-- The model of the tier is loaded, some model is resident, and the request to it is answered with
-- 200 and a completion.
abbrev pub Answers : LocalModel → Str → Completion → Type 0
Answers m task c =
    (m.loads ≡ true)
    × (x : ResidentState) × (m.resident ≡ some x)
    × (m.call task ≡ answered 200 (some c))

received_only :
    (x : ResidentState) (status : ℕ) (body : Option Completion) (c : Completion)
    → (complete (some x) (answered status body)).0 ≡ completed c
    → answered status body ≡ answered 200 (some c)
unfolding complete
received_only x status none c h = elim (Bool-cases (status == 200)) [
  | inl e ↦ absurd (cc (rw e at h))
  | inr e ↦ absurd (cc (rw e at h))
]
received_only x status (some d) c h = elim (Bool-cases (status == 200)) [
  | inl e ↦ let same : d ≡ c = cc (rw e at h) in rw ((==_iff status 200).0 e, same) refl
  | inr e ↦ absurd (cc (rw e at h))
]

-- A completion comes only from a resident that answers with 200.
pub completed_only :
    (o : Option ResidentState) (x : Call) (c : Completion)
    → (complete o x).0 ≡ completed c
    → (r : ResidentState) × (o ≡ some r) × (x ≡ answered 200 (some c))
unfolding complete
completed_only none x c h = absurd (cc h)
completed_only (some r) not_encoded c h = absurd (cc h)
completed_only (some r) not_built c h = absurd (cc h)
completed_only (some r) not_sent c h = absurd (cc h)
completed_only (some r) (answered status body) c h = (r, refl, received_only r status body c h)
