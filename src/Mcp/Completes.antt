-- ===== src/Mcp/Completes.antt =====
-- What route_complete of internal/mcp/handlers.go serves, and what it charges.
use go_mcp_gateway.Common.{
  ℕ, ◌/◌, ◌≡◌, refl, sym, subst, ◌⊎◌, inl, inr, true, false, Bool-cases, none, some, Option, String,
  [], ◌∷◌, ◌++◌, length,
}
use go_mcp_gateway.Policy.Registry
use go_mcp_gateway.Policy.Registry.{
  Registry, Readings, Answer, pass, refused, panic, check_session, check_tier, PolicyError,
}
use go_mcp_gateway.Router.{Tier, RouteResult, Result, ok, err, route, route_fallback, RouterError}
use go_mcp_gateway.Manager.{Completed, CompletionError, Completion, completed, complete}
use go_mcp_gateway.Common.{◌∙◌, ap}
use go_mcp_gateway.Common.Text.{Str}
use go_mcp_gateway.Serving.Answers.{IsLocal, is_local-IsLocal, Answers, completed_only}
use go_mcp_gateway.Serving.{LocalModel, is_local, first_text, charge, is_pass}
use go_mcp_gateway.Mcp.{
  RouteComplete, Content, local, remote_placeholder, ToolError, Reply, served, failed, panicked,
  World, fallback_tag, chosen, fall_back, choose_from, choose, Generated, generated, not_generated,
  from_completion, generate, model_not_loaded, not_completed, not_routed, all_tiers_unavailable,
  settle, dispatch, after_check, route_complete,
}

-- The tier of a request: the routed one if its budget is not used up, and else the next in the
-- chain of fallbacks, with a tag that names both.
abbrev pub Picks : Registry → RouteResult → RouteResult → Type 0
Picks r rr picked =
    (is_pass (check_tier r rr.tier) ≡ true) × (picked ≡ rr)
    ⊎ (is_pass (check_tier r rr.tier) ≡ false)
      × (next : Tier) × (route_fallback rr.tier ≡ some next)
      × (picked ≡ record {
        tier = next;
        reasoning_tags = rr.reasoning_tags ++ fallback_tag rr.tier next ∷ [];
      })

-- What a tier makes of a task: the resident's completion for a local tier; for any other the task
-- itself behind a marker, with a quarter of its length for tokens, and no model is asked.
abbrev pub Makes : LocalModel → Str → Tier → Content → ℕ → Type 0
Makes m task tier content tokens =
    IsLocal tier
      × ((c : Completion) × Answers m task c
          × (content ≡ local (first_text c.choices))
          × (tokens ≡ c.total_tokens))
    ⊎ (¬ IsLocal tier) × (content ≡ remote_placeholder tier task) × (tokens ≡ length task / 4)

-- Why a tier makes nothing: it is local, and is not loaded or gives no completion.
abbrev pub Refuses : LocalModel → Str → Tier → ToolError → Type 0
Refuses m task tier e =
    IsLocal tier
    × ((m.loads ≡ false) × (e ≡ model_not_loaded)
        ⊎ (m.loads ≡ true)
          × ((f : CompletionError) × ((complete m.resident (m.call task)).0 ≡ Completed.refused f)
              × (e ≡ not_completed f)))

-- A request that is answered with a completion, from the registry behind the session's check.
pub record Serves (r : Registry) (sid : String) (req : RouteComplete) (w : World)
    (p : Registry × Reply) : Type 0 where
  pub routed : RouteResult
  pub picked : RouteResult
  pub content : Content
  pub tokens : ℕ
  pub routes : route req.complexity req.force_tier ≡ ok routed
  pub picks : Picks r routed picked
  pub made : Makes w.model req.task picked.tier content tokens
  pub goes_on : w.cancelled ≡ false
  pub reply :
      p.1
      ≡ served (record {
        content = content;
        tier = picked.tier;
        complexity = req.complexity;
        reasoning_tags = picked.reasoning_tags;
        total_tokens = tokens;
      })
  pub charged : p.0 ≡ charge r sid picked.tier w.charging tokens

-- Why a request that passed the session's check is not served.
abbrev pub Why : Registry → RouteComplete → World → ToolError → Type 0
Why r req w e =
    ((f : RouterError) × (route req.complexity req.force_tier ≡ err f) × (e ≡ not_routed f))
    ⊎ ((rr : RouteResult) × (route req.complexity req.force_tier ≡ ok rr)
        × ((is_pass (check_tier r rr.tier) ≡ false)
              × (route_fallback rr.tier ≡ none)
              × (e ≡ all_tiers_unavailable)
            ⊎ ((picked : RouteResult) × Picks r rr picked
                × (Refuses w.model req.task picked.tier e
                    ⊎ (w.cancelled ≡ true) × (e ≡ ToolError.cancelled)))))

-- An error that leaves the registry as the session's check left it.
abbrev pub Fails : Registry → RouteComplete → World → Registry × Reply → Type 0
Fails r req w p = (p.0 ≡ r) × (e : ToolError) × (p.1 ≡ failed e) × Why r req w e

from_completion-cases :
    (m : LocalModel) (task : Str) (tier : Tier) (a : Completed)
    → IsLocal tier
    → m.loads ≡ true
    → (complete m.resident (m.call task)).0 ≡ a
    → ((content : Content) × (tokens : ℕ) × (from_completion a ≡ generated content tokens)
        × Makes m task tier content tokens)
      ⊎ ((e : ToolError) × (from_completion a ≡ not_generated e) × Refuses m task tier e)
from_completion-cases m task tier (completed c) here loads h =
    let (x, noted, call) = completed_only m.resident (m.call task) c h in
    inl (_, _, refl, inl (here, (c, (loads, x, noted, call), refl, refl)))
from_completion-cases m task tier (Completed.refused f) here loads h =
    inr (_, refl, (here, inr (loads, (f, h, refl))))

generate-cases :
    (m : LocalModel) (task : Str) (tier : Tier)
    → ((content : Content) × (tokens : ℕ) × (generate m task tier ≡ generated content tokens)
        × Makes m task tier content tokens)
      ⊎ ((e : ToolError) × (generate m task tier ≡ not_generated e) × Refuses m task tier e)
unfolding generate
generate-cases m task tier = elim (Bool-cases (is_local tier)) [
  | inl l ↦
      let here = (is_local-IsLocal tier).0 l in
      elim (Bool-cases m.loads) [
        | inl k ↦
            let same : generate m task tier
                ≡ from_completion (complete m.resident (m.call task)).0 =
              rw (l, k, generate) refl in
            elim (from_completion-cases m task tier _ here k refl) [
              | inl (content, tokens, e, x) ↦ inl (content, tokens, same ∙ e, x)
              | inr (f, e, x) ↦ inr (f, same ∙ e, x)
            ]
        | inr k ↦
            let same : generate m task tier ≡ not_generated model_not_loaded =
              rw (l, k, generate) refl in
            inr (_, same, (here, inl (k, refl)))
      ]
  | inr l ↦
      let same : generate m task tier ≡ generated (remote_placeholder tier task) (length task / 4) =
        rw (l, generate) refl in
      inl (_, _, same, inr (λ here. cc ((is_local-IsLocal tier).1 here, l), refl, refl))
]

module _ (r : Registry) (sid : String) (req : RouteComplete) (w : World) where
  settle-cases :
      (rr picked : RouteResult) (g : Generated)
      → route req.complexity req.force_tier ≡ ok rr
      → Picks r rr picked
      → generate w.model req.task picked.tier ≡ g
      → Serves r sid req w (settle r sid req w picked g)
        ⊎ Fails r req w (settle r sid req w picked g)
  settle-cases rr picked (not_generated e) k x m =
      elim (generate-cases w.model req.task picked.tier) [
        | inl (content, tokens, g, y) ↦ absurd (cc (m, g))
        | inr (f, g, y) ↦
            let same : f ≡ e = cc (m, g) in
            inr (
              refl,
              e,
              refl,
              inr (
                rr,
                k,
                inr (picked, x, inl (subst (Refuses w.model req.task picked.tier) same y)),
              ),
            )
      ]
  settle-cases rr picked (generated content tokens) k x m =
      elim (generate-cases w.model req.task picked.tier) [
        | inr (f, g, y) ↦ absurd (cc (m, g))
        | inl (c, n, g, y) ↦
            let same_content : c ≡ content = cc (m, g) in
            let same_tokens : n ≡ tokens = cc (m, g) in
            let made : Makes w.model req.task picked.tier content tokens =
              subst (λ t. Makes w.model req.task picked.tier t tokens) same_content
                (subst (Makes w.model req.task picked.tier c) same_tokens y) in
            elim (Bool-cases w.cancelled) [
              | inl z ↦
                  let ends : settle r sid req w picked (generated content tokens)
                      ≡ (r, failed ToolError.cancelled) =
                    rw z refl in
                  inr (
                    ap (λ p. p.0) ends,
                    ToolError.cancelled,
                    ap (λ p. p.1) ends,
                    inr (rr, k, inr (picked, x, inr (z, refl))),
                  )
              | inr z ↦ inl (record {
                routed = rr;
                picked = picked;
                content = content;
                tokens = tokens;
                routes = k;
                picks = x;
                made = made;
                goes_on = z;
                reply = rw z refl;
                charged = rw z refl;
              })
            ]
      ]

  fall_back-cases :
      (rr : RouteResult) (o : Option Tier)
      → route req.complexity req.force_tier ≡ ok rr
      → is_pass (check_tier r rr.tier) ≡ false
      → route_fallback rr.tier ≡ o
      → Serves r sid req w (dispatch r sid req w (fall_back rr o))
        ⊎ Fails r req w (dispatch r sid req w (fall_back rr o))
  fall_back-cases rr none k h f =
      inr (refl, all_tiers_unavailable, refl, inr (rr, k, inl (h, f, refl)))
  fall_back-cases rr (some next) k h f = settle-cases rr _ _ k (inr (h, next, f, refl)) refl

  choose_from-cases :
      (a : Result RouteResult)
      → route req.complexity req.force_tier ≡ a
      → Serves r sid req w (dispatch r sid req w (choose_from r a))
        ⊎ Fails r req w (dispatch r sid req w (choose_from r a))
  choose_from-cases (err e) k = inr (refl, ToolError.not_routed e, refl, inl (e, k, refl))
  choose_from-cases (ok rr) k = elim (Bool-cases (is_pass (check_tier r rr.tier))) [
    | inl h ↦
        let same : choose_from r (ok rr) ≡ chosen rr = rw h refl in
        subst
          (λ c.
            Serves r sid req w (dispatch r sid req w c) ⊎ Fails r req w (dispatch r sid req w c))
          (sym same) (settle-cases rr rr _ k (inl (h, refl)) refl)
    | inr h ↦
        let same : choose_from r (ok rr) ≡ fall_back rr (route_fallback rr.tier) = rw h refl in
        subst
          (λ c.
            Serves r sid req w (dispatch r sid req w c) ⊎ Fails r req w (dispatch r sid req w c))
          (sym same) (fall_back-cases rr _ k h refl)
  ]

-- A request that is served has passed the session's check. Its tier is the routed one or, if the
-- budget of that is used up, the next one in the chain. If that tier is local, what is served is the
-- completion that the resident gives; if it is remote, no model is asked: it is a placeholder with the
-- task, and a quarter of the task's length for tokens. The tokens are charged to the session and to
-- the tier, and the reply names both. A session that is refused is told so, and a request that passes
-- the check fails only if it is not routed, no fallback is left, the local model is not loaded or gives
-- no completion, or the context ends. No failure charges anything, nor does a panic of the check: the
-- registry is as the check left it.
pub route_complete_lem :
    (r : Registry) (sid : String) (req : RouteComplete) (w : World)
    → let (checked, a) = check_session r sid w.readings in
      (a ≡ pass)
        × (Serves checked sid req w (route_complete r sid req w)
            ⊎ Fails checked req w (route_complete r sid req w))
      ⊎ ((x : PolicyError) × (a ≡ refused x)
          × (route_complete r sid req w
              ≡ (checked, failed (ToolError.rate_limited x (Registry.reasoning_tags x)))))
      ⊎ (a ≡ panic) × (route_complete r sid req w ≡ (checked, panicked))
unfolding route_complete choose
route_complete_lem r sid req w =
    by_answer (check_session r sid w.readings).0 (check_session r sid w.readings).1
  where
    by_answer :
        (checked : Registry) (a : Answer)
        → (a ≡ pass)
            × (Serves checked sid req w (after_check checked sid req w a)
                ⊎ Fails checked req w (after_check checked sid req w a))
          ⊎ ((x : PolicyError) × (a ≡ refused x)
              × (after_check checked sid req w a
                  ≡ (checked, failed (ToolError.rate_limited x (Registry.reasoning_tags x)))))
          ⊎ (a ≡ panic) × (after_check checked sid req w a ≡ (checked, panicked))
    by_answer checked pass =
        inl (refl, choose_from-cases checked sid req w (route req.complexity req.force_tier) refl)
    by_answer checked (refused x) = inr (inl (x, refl, refl))
    by_answer checked panic = inr (inr (refl, refl))
