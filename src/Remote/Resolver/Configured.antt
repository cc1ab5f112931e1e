-- ===== src/Remote/Resolver/Configured.antt =====
-- Which tiers internal/remote/resolver.go has adapters for.
use go_mcp_gateway.Common.{
  ◌≡◌, ◌≢◌, refl, ◌⊎◌, inl, inr, ◌↔◌, arith, true, false, Bool-cases, none, some, String, [], ◌∷◌,
  name_eq, eq_iff,
}
use go_mcp_gateway.Common.Dict
use go_mcp_gateway.Common.Dict.{Dict}
use go_mcp_gateway.Remote.Resolver.{
  Adapter, open_router_key, zai_key, new_resolver, resolve, build, glm, opus, deep_seek,
  with_fallback, open_router_fallback, glm_client, opus_client, deep_seek_client,
}

-- The tiers that are served, by the keys for OpenRouter and Z.ai.
abbrev pub IsServed : String → String → String → Type 0
IsServed router zai tier =
    (tier ≡ "remote_deepseek") × (router ≢ "")
    ⊎ (tier ≡ "remote_opus") × (router ≢ "")
    ⊎ (tier ≡ "remote_glm") × (zai ≢ "")

module _ (router zai tier : String) where
  abbrev via : Adapter → Adapter
  via a = with_fallback a (open_router_fallback router)

  unset_lem :
      name_eq router "" ≡ true
      → name_eq zai "" ≡ true
      → (resolve [] tier ≢ none) ↔ IsServed router zai tier
  unfolding resolve Dict.lookup
  unset_lem a b = ground (arith, eq_iff router "", eq_iff zai "")

  router_only_lem :
      (d o : Adapter)
      → name_eq router "" ≡ false
      → name_eq zai "" ≡ true
      → (resolve (("remote_deepseek", d) ∷ ("remote_opus", o) ∷ []) tier ≢ none)
        ↔ IsServed router zai tier
  unfolding resolve Dict.lookup
  router_only_lem d o a b = ground (
    arith,
    eq_iff router "",
    eq_iff zai "",
    eq_iff tier "remote_deepseek",
    eq_iff tier "remote_opus",
  )

  zai_only_lem :
      (g : Adapter)
      → name_eq router "" ≡ true
      → name_eq zai "" ≡ false
      → (resolve (("remote_glm", g) ∷ []) tier ≢ none) ↔ IsServed router zai tier
  unfolding resolve Dict.lookup
  zai_only_lem g a b = ground (arith, eq_iff router "", eq_iff zai "", eq_iff tier "remote_glm")

  all_set_lem :
      (d o g : Adapter)
      → name_eq router "" ≡ false
      → name_eq zai "" ≡ false
      → (resolve (("remote_deepseek", d) ∷ ("remote_opus", o) ∷ ("remote_glm", g) ∷ []) tier ≢ none)
        ↔ IsServed router zai tier
  unfolding resolve Dict.lookup
  all_set_lem d o g a b = ground (
    arith,
    eq_iff router "",
    eq_iff zai "",
    eq_iff tier "remote_deepseek",
    eq_iff tier "remote_opus",
    eq_iff tier "remote_glm",
  )

  build_lem :
      (r : Dict Adapter) × (build router zai ≡ some r)
      × ((resolve r tier ≢ none) ↔ IsServed router zai tier)
  unfolding Dict.insert
  build_lem = elim (Bool-cases (name_eq router "")) [
    | inl a ↦ elim (Bool-cases (name_eq zai "")) [
      | inl b ↦ ([], rw (a, b) refl, unset_lem a b)
      | inr b ↦ (_, rw (a, b) refl, zai_only_lem (glm (glm_client zai)) a b)
    ]
    | inr a ↦ elim (Bool-cases (name_eq zai "")) [
      | inl b ↦ (
        _,
        rw (a, b) refl,
        router_only_lem (via (deep_seek (deep_seek_client router))) (opus (opus_client router)) a b,
      )
      | inr b ↦ (
        _,
        rw (a, b) refl,
        all_set_lem (via (deep_seek (deep_seek_client router))) (opus (opus_client router))
            (via (glm (glm_client zai))) a b,
      )
    ]
  ]

abbrev pub HasRouterKey : (String → String) → Type 0
HasRouterKey env = (env "OPENROUTER_API_KEY" ≢ "") ⊎ (env "DEEPSEEK_API_KEY" ≢ "")

abbrev pub HasZaiKey : (String → String) → Type 0
HasZaiKey env = (env "ZAI_API_KEY" ≢ "") ⊎ (env "ZHIPU_API_KEY" ≢ "") ⊎ (env "GLM_API_KEY" ≢ "")

-- The tiers that are served, by the variables that are set.
abbrev pub IsConfigured : (String → String) → String → Type 0
IsConfigured env tier =
    (tier ≡ "remote_deepseek") × HasRouterKey env
    ⊎ (tier ≡ "remote_opus") × HasRouterKey env
    ⊎ (tier ≡ "remote_glm") × HasZaiKey env

open_router_key-HasRouterKey :
    (env : String → String) → (open_router_key env ≢ "") ↔ HasRouterKey env
unfolding open_router_key
open_router_key-HasRouterKey env =
    ground (arith, eq_iff (env "OPENROUTER_API_KEY") "", eq_iff (env "DEEPSEEK_API_KEY") "")

zai_key-HasZaiKey : (env : String → String) → (zai_key env ≢ "") ↔ HasZaiKey env
unfolding zai_key
zai_key-HasZaiKey env = ground (
  arith,
  eq_iff (env "ZAI_API_KEY") "",
  eq_iff (env "ZHIPU_API_KEY") "",
  eq_iff (env "GLM_API_KEY") "",
)

IsServed-IsConfigured :
    (env : String → String) (tier : String)
    → IsServed (open_router_key env) (zai_key env) tier ↔ IsConfigured env tier
IsServed-IsConfigured env tier =
    let router = open_router_key-HasRouterKey env in
    let zai = zai_key-HasZaiKey env in ground (arith, router, zai)

-- The resolver can always be made: no adapter is built with an empty key. It serves DeepSeek and Opus
-- exactly if OPENROUTER_API_KEY or DEEPSEEK_API_KEY is set, GLM exactly if ZAI_API_KEY, ZHIPU_API_KEY
-- or GLM_API_KEY is, and no other tier.
pub new_resolver_lem :
    (env : String → String) (tier : String)
    → (r : Dict Adapter) × (new_resolver env ≡ some r)
      × ((resolve r tier ≢ none) ↔ IsConfigured env tier)
unfolding new_resolver
new_resolver_lem env tier =
    let (r, made, served) = build_lem (open_router_key env) (zai_key env) tier in
    let same = IsServed-IsConfigured env tier in
    (r, made, (λ h. same.0 (served.0 h), λ h. served.1 (same.1 h)))
