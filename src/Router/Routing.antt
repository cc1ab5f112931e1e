-- ===== src/Router/Routing.antt =====
-- What `Route` of internal/router/router.go answers, and `Classify` followed by `Route`.
use go_mcp_gateway.Common.Dict.{lookup}
use go_mcp_gateway.Common.{
  ◌≡◌, refl, ◌⊎◌, inl, inr, [], ◌∷◌, none, Bool, true, false, ℕ, sym, subst, eq_iff, name_eq,
  Bool-cases, if◌then◌else◌,
}
use go_mcp_gateway.Common.Text.{Str}
use go_mcp_gateway.Router.{
  Tier, Complexity, QaLevel, skip, full, RouteResult, Result, ok, err, unknown_complexity,
  complexity_scaffold, complexity_single_file, complexity_multi_file, complexity_recovery,
  complexity_text_op, tier_local_qwen, tier_remote_deep_seek, route, valid_complexities,
}
use go_mcp_gateway.Router.Classify.{ClassifyResult, classify, classify_task}

-- The five complexities that the workflow contract names.
pub data IsComplexity : Complexity → Type 0 where
  scaffold : IsComplexity complexity_scaffold
  single_file : IsComplexity complexity_single_file
  multi_file : IsComplexity complexity_multi_file
  recovery : IsComplexity complexity_recovery
  text_op : IsComplexity complexity_text_op

-- The tier that a complexity is meant for.
abbrev pub intended_tier : {c : Complexity} → IsComplexity c → Tier
intended_tier multi_file = tier_remote_deep_seek
intended_tier _ = tier_local_qwen

abbrev pub resolved : Tier → Tier → Result RouteResult
resolved intended force_tier =
    if name_eq force_tier ""
    then ok (record { tier = intended; reasoning_tags = [] })
    else ok (record { tier = force_tier; reasoning_tags = "forced_tier" ∷ [] })

route_of_complexity :
    {c : Complexity} (k : IsComplexity c) (force_tier : Tier)
    → route c force_tier ≡ resolved (intended_tier k) force_tier
unfolding route
route_of_complexity scaffold force_tier = refl
route_of_complexity single_file force_tier = refl
route_of_complexity multi_file force_tier = refl
route_of_complexity recovery force_tier = refl
route_of_complexity text_op force_tier = refl

accepted : {c d : Complexity} → name_eq c d ≡ true → IsComplexity d → IsComplexity c
accepted {c} {d} e k = subst IsComplexity (sym ((eq_iff c d).0 e)) k

complexity_cases : (c : Complexity) → IsComplexity c ⊎ (lookup c valid_complexities ≡ none)
unfolding lookup valid_complexities
complexity_cases c = elim (Bool-cases (name_eq c complexity_scaffold)) [
  | inl e ↦ inl (accepted e scaffold)
  | inr e₁ ↦ elim (Bool-cases (name_eq c complexity_single_file)) [
    | inl e ↦ inl (accepted e single_file)
    | inr e₂ ↦ elim (Bool-cases (name_eq c complexity_multi_file)) [
      | inl e ↦ inl (accepted e multi_file)
      | inr e₃ ↦ elim (Bool-cases (name_eq c complexity_recovery)) [
        | inl e ↦ inl (accepted e recovery)
        | inr e₄ ↦ elim (Bool-cases (name_eq c complexity_text_op)) [
          | inl e ↦ inl (accepted e text_op)
          | inr e₅ ↦ inr (rw (e₁, e₂, e₃, e₄, e₅))
        ]
      ]
    ]
  ]
]

-- `Route` answers each of the five complexities of the contract and refuses every other one, forced
-- tier or not. With no forced tier the answer is the intended tier, with no tag; with one it is the
-- forced tier, known or not, with the tag. That no tier is mapped to a valid complexity does not
-- happen.
pub route_answers :
    (c : Complexity) (force_tier : Tier)
    → ((k : IsComplexity c) × (route c force_tier ≡ resolved (intended_tier k) force_tier))
      ⊎ (route c force_tier ≡ err (unknown_complexity c))
route_answers c force_tier = elim (complexity_cases c) [
  | inl k ↦ inl (k, route_of_complexity k force_tier)
  | inr e ↦ inr (unfold route in rw e)
]

-- The tasks that QA is skipped for are the text operations and the scaffolds.
abbrev pub qa_of : {c : Complexity} → IsComplexity c → QaLevel
qa_of text_op = skip
qa_of scaffold = skip
qa_of _ = full

abbrev WellClassified : ClassifyResult → Type 0
WellClassified r = (k : IsComplexity r.complexity) × (r.qa_level ≡ qa_of k)

WellClassified-if :
    (b : Bool) (r s : ClassifyResult)
    → WellClassified r
    → WellClassified s
    → WellClassified (if b then r else s)
WellClassified-if true r s hr hs = hr
WellClassified-if false r s hr hs = hs

classify_task-WellClassified : (task : Str) → WellClassified (classify_task task)
unfolding classify_task
classify_task-WellClassified task =
    WellClassified-if _ _ _ (text_op, refl)
      (WellClassified-if _ _ _ (scaffold, refl)
        (WellClassified-if _ _ _ (recovery, refl)
          (WellClassified-if _ _ _ (multi_file, refl) (single_file, refl))))

-- Every task but the empty one is classified, and what it is classified as is routed without an
-- error: with no forced tier, to remote_deepseek for multi-file work and to local_qwen for all
-- else. QA is skipped for exactly the text operations and the scaffolds.
pub classify_routes :
    (c : ℕ) (task : Str) (force_tier : Tier)
    → (r : ClassifyResult) × (classify (c ∷ task) ≡ ok r)
      × (k : IsComplexity r.complexity) × (r.qa_level ≡ qa_of k)
      × (route r.complexity force_tier ≡ resolved (intended_tier k) force_tier)
unfolding classify
classify_routes c task force_tier =
    let w = classify_task-WellClassified (c ∷ task) in
    (classify_task (c ∷ task), refl, w.0, w.1, route_of_complexity w.0 force_tier)
