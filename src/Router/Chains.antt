-- ===== src/Router/Chains.antt =====
-- The fallback chain and the escalation ladder of internal/router, followed to their ends.
use go_mcp_gateway.Common.{
  Option-cases, ℕ, zero, suc, ◌+◌, ◌≤◌, ◌<◌, ◌≡◌, ◌≢◌, refl, none, some, arith, eq_iff, name_eq,
  if◌then◌else◌, ◌⊎◌, inl, inr,
}
use go_mcp_gateway.Router.{
  Tier, tier_local_ornith, tier_local_qwen, tier_remote_deep_seek, tier_remote_glm,
  tier_remote_opus, route_fallback, next_tier_up,
}

-- `n` steps by `next` lead from one tier to another.
pub data Walks (next : Tier → Tier → Type 0) : Tier → ℕ → Tier → Type 0 where
  stay : {t : Tier} → Walks next t zero t
  go : {t u v : Tier} {n : ℕ} → next t u → Walks next u n v → Walks next t (suc n) v

abbrev pub Escalates : Tier → Tier → Type 0
Escalates t u = next_tier_up t ≡ some u

abbrev pub FallsBack : Tier → Tier → Type 0
FallsBack t u = route_fallback t ≡ some u

-- The number of escalations above a tier.
height : Tier → ℕ
height t =
    if name_eq t tier_remote_deep_seek
    then 1
    else if name_eq t tier_local_ornith
    then 2
    else if name_eq t tier_local_qwen
    then 2
    else 0

-- The number of fallbacks below a tier.
depth : Tier → ℕ
depth t = if name_eq t tier_remote_deep_seek then 1 else if name_eq t tier_remote_glm then 2 else 0

abbrev EscalatesCases : Tier → Tier → Type 0
EscalatesCases t u =
    ((t ≡ tier_local_ornith) × (u ≡ tier_remote_deep_seek))
    ⊎ ((t ≡ tier_local_qwen) × (u ≡ tier_remote_deep_seek))
    ⊎ ((t ≡ tier_remote_deep_seek) × (u ≡ tier_remote_glm))

Escalates-cases : (t u : Tier) → Escalates t u → EscalatesCases t u
unfolding next_tier_up
Escalates-cases t u e =
    ground (arith, eq_iff t "local_ornith", eq_iff t "local_qwen", eq_iff t "remote_deepseek")

abbrev FallsBackCases : Tier → Tier → Type 0
FallsBackCases t u =
    ((t ≡ tier_remote_glm) × (u ≡ tier_remote_deep_seek))
    ⊎ ((t ≡ tier_remote_deep_seek) × (u ≡ tier_local_ornith))

FallsBack-cases : (t u : Tier) → FallsBack t u → FallsBackCases t u
unfolding route_fallback
FallsBack-cases t u e = ground (arith, eq_iff t "remote_glm", eq_iff t "remote_deepseek")

deep_seek-ne-opus : ◌≢◌ {A = Tier} tier_remote_deep_seek tier_remote_opus
deep_seek-ne-opus = ground (arith, eq_iff "remote_deepseek" "remote_opus")

glm-ne-opus : ◌≢◌ {A = Tier} tier_remote_glm tier_remote_opus
glm-ne-opus = ground (arith, eq_iff "remote_glm" "remote_opus")

Escalates-height : (t u : Tier) → Escalates t u → (height u < height t) × (u ≢ tier_remote_opus)
unfolding height
Escalates-height t u e = elim (Escalates-cases t u e) [
  | inl (p, q) ↦ rw (p, q) (omega arith, deep_seek-ne-opus)
  | inr (inl (p, q)) ↦ rw (p, q) (omega arith, deep_seek-ne-opus)
  | inr (inr (p, q)) ↦ rw (p, q) (omega arith, glm-ne-opus)
]

FallsBack-depth : (t u : Tier) → FallsBack t u → depth u < depth t
unfolding depth
FallsBack-depth t u e = elim (FallsBack-cases t u e) [
  | inl (p, q) ↦ rw (p, q) (omega arith)
  | inr (p, q) ↦ rw (p, q) (omega arith)
]

walk-height : {t u : Tier} {n : ℕ} → Walks Escalates t n u → n + height u ≤ height t
walk-height stay = omega arith
walk-height (go {t = t} {u = u} e w) = omega (arith, walk-height w, Escalates-height t u e)

walk-depth : {t u : Tier} {n : ℕ} → Walks FallsBack t n u → n + depth u ≤ depth t
walk-depth stay = omega arith
walk-depth (go {t = t} {u = u} e w) = omega (arith, walk-depth w, FallsBack-depth t u e)

height-le : (t : Tier) → height t ≤ 2
unfolding height
height-le t = ground arith

depth-le : (t : Tier) → depth t ≤ 2
unfolding depth
depth-le t = ground arith

opus_or-not : (t : Tier) → (t ≡ tier_remote_opus) ⊎ (t ≢ tier_remote_opus)
opus_or-not t = ground (arith, eq_iff t "remote_opus")

walk-ne-opus :
    {t u : Tier} {n : ℕ} → Walks Escalates t n u → (t ≡ tier_remote_opus) ⊎ (u ≢ tier_remote_opus)
walk-ne-opus (stay {t = t}) = opus_or-not t
walk-ne-opus (go {t = t} {u = u} e w) = elim (walk-ne-opus w) [
  | inl h ↦ absurd ((Escalates-height t u e).1 h)
  | inr h ↦ inr h
]

-- Escalation from any tier name, known or not, makes at most two steps, and it arrives at
-- remote_opus only if it started there.
pub escalation_ends :
    {t u : Tier} {n : ℕ}
    → Walks Escalates t n u
    → (n ≤ 2) × ((t ≡ tier_remote_opus) ⊎ (u ≢ tier_remote_opus))
escalation_ends {t} w = (omega (arith, walk-height w, height-le t), walk-ne-opus w)

-- A tier that another falls back to, with no fallback of its own, is local_ornith.
deep_seek-falls : route_fallback tier_remote_deep_seek ≢ none
unfolding route_fallback
deep_seek-falls k = cc

fallback-last : (t u : Tier) → FallsBack t u → route_fallback u ≡ none → u ≡ tier_local_ornith
fallback-last t u e h = elim (FallsBack-cases t u e) [
  | inl (p, q) ↦ absurd (deep_seek-falls (rw q at h))
  | inr (p, q) ↦ q
]

walk-last :
    {t u : Tier} {n : ℕ}
    → Walks FallsBack t (suc n) u
    → route_fallback u ≡ none
    → u ≡ tier_local_ornith
walk-last (go {t = t} {u = u} e stay) h = fallback-last t u e h
walk-last (go e (go e' w)) h = walk-last (go e' w) h

-- The fallback chain from any tier name makes at most two steps, and where it ends after at least
-- one step, it ends at local_ornith.
pub fallback_ends :
    {t u : Tier} {n : ℕ}
    → Walks FallsBack t n u
    → (n ≤ 2) × ((n ≡ 0) ⊎ (u ≡ tier_local_ornith) ⊎ (route_fallback u ≢ none))
fallback_ends {t} {n = zero} w = (omega arith, inl refl)
fallback_ends {t} {u} {n = suc n} w = (
  omega (arith, walk-depth w, depth-le t),
  elim (Option-cases (route_fallback u)) [
    | inl e ↦ inr (inl (walk-last w e))
    | inr (v, e) ↦ inr (inr (λ h. absurd (cc (e, h))))
  ],
)

-- The two policies point in opposite directions: escalating from where a tier falls back to leads
-- to that tier again.
pub escalates_of_falls_back : (t u : Tier) → route_fallback t ≡ some u → next_tier_up u ≡ some t
unfolding route_fallback next_tier_up
escalates_of_falls_back t u e = elim (FallsBack-cases t u e) [
  | inl (p, q) ↦ rw (p, q)
  | inr (p, q) ↦ rw (p, q)
]
