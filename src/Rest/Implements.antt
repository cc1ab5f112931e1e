-- ===== src/Rest/Implements.antt =====
-- What POST /implement of internal/rest/handlers.go answers, and what it charges.
use go_mcp_gateway.Common.Text.{Str}
use go_mcp_gateway.Remote
use go_mcp_gateway.Remote.{RemoteResult, RemoteError, returned, raised}
use go_mcp_gateway.Manager.{Completion, Completed, CompletionError, completed, complete}
use go_mcp_gateway.Serving.Answers.{IsLocal, is_local-IsLocal, Answers, completed_only}
use go_mcp_gateway.Common.{
  true, false, Bool-cases, subst, sym, ◌+◌, ℕ, ◌≡◌, refl, ◌⊎◌, inl, inr, none, some, Option, String,
  ◌++◌,
}
use go_mcp_gateway.Policy.Registry
use go_mcp_gateway.Policy.Registry.{
  Registry, Answer, pass, refused, panic, check_session, get_or_create_session,
}
use go_mcp_gateway.Router.{Tier, Complexity, RouteResult, Result, ok, err, route, RouterError}
use go_mcp_gateway.Router.Classify.{ClassifyResult, classify}
use go_mcp_gateway.Serving.{charge, is_local, first_text}
use go_mcp_gateway.Rest.{
  Adapter, from_completion, from_adapter, from_resolver, from_remote, ImplementRequest,
  implement_response, Reply, World, write_error, write_ok, throttle, aborted, enrich, Made, made,
  not_made, make, settle, routed, classified, after_check, handle_implement,
}

-- What a tier answers to a task: the resident's completion for a local tier, and the result of the
-- tier's adapter for any other.
abbrev pub Makes : World → Str → Tier → Complexity → String → ℕ → Type 0
Makes w task tier complexity content tokens =
    IsLocal tier
      × ((c : Completion) × Answers w.model task c
          × (content ≡ first_text c.choices)
          × (tokens ≡ c.total_tokens))
    ⊎ (¬ IsLocal tier)
      × ((resolve : Tier → Option Adapter) × (w.resolver ≡ some resolve)
          × (do_remote : Adapter) × (resolve tier ≡ some do_remote)
          × (r : RemoteResult) × (do_remote task tier complexity ≡ returned r)
          × (content ≡ r.content)
          × (tokens ≡ r.prompt_tokens + r.completion_tokens))

-- Why a tier does not answer, with the status and the code of the reply.
abbrev pub Refuses : World → Str → Tier → Complexity → ℕ → String → Type 0
Refuses w task tier complexity status code =
    IsLocal tier
      × ((w.model.loads ≡ false) × (status ≡ 503) × (code ≡ "model_not_loaded")
          ⊎ (w.model.loads ≡ true)
            × ((f : CompletionError) × ((complete w.model.resident (w.model.call task)).0
                  ≡ Completed.refused f)
                × (status ≡ 500)
                × (code ≡ "completion_error")))
    ⊎ (¬ IsLocal tier)
      × ((w.resolver ≡ none) × (status ≡ 503) × (code ≡ "no_resolver")
          ⊎ ((resolve : Tier → Option Adapter) × (w.resolver ≡ some resolve)
              × ((resolve tier ≡ none) × (status ≡ 503) × (code ≡ "tier_unavailable")
                  ⊎ ((do_remote : Adapter) × (resolve tier ≡ some do_remote)
                      × (e : RemoteError) × (do_remote task tier complexity ≡ raised e)
                      × (status ≡ 502)
                      × (code ≡ "remote_error")))))

-- What a tier comes to is one of these.
abbrev pub Tried : World → Str → Tier → Complexity → Made → Type 0
Tried w task tier complexity (made content tokens) = Makes w task tier complexity content tokens
Tried w task tier complexity (not_made status code) = Refuses w task tier complexity status code

from_completion-Tried :
    (w : World) (task : Str) (tier : Tier) (complexity : Complexity) (a : Completed)
    → IsLocal tier
    → w.model.loads ≡ true
    → (complete w.model.resident (w.model.call task)).0 ≡ a
    → Tried w task tier complexity (from_completion a)
from_completion-Tried w task tier complexity (completed c) here loads h =
    let (x, noted, call) = completed_only w.model.resident (w.model.call task) c h in
    inl (here, (c, (loads, x, noted, call), refl, refl))
from_completion-Tried w task tier complexity (Completed.refused f) here loads h =
    inl (here, inr (loads, (f, h, refl, refl)))

module _ (w : World) (task : Str) (tier : Tier) (complexity : Complexity)
    (far : ¬ IsLocal tier) where
  from_adapter-Tried :
      (resolve : Tier → Option Adapter) (do_remote : Adapter) (a : Remote.Answer RemoteResult)
      → w.resolver ≡ some resolve
      → resolve tier ≡ some do_remote
      → do_remote task tier complexity ≡ a
      → Tried w task tier complexity (from_adapter a)
  unfolding Remote.total_tokens
  from_adapter-Tried resolve do_remote (returned r) k d h =
      inr (far, (resolve, k, do_remote, d, r, h, refl, refl))
  from_adapter-Tried resolve do_remote (raised e) k d h =
      inr (far, inr (resolve, k, inr (do_remote, d, e, h, refl, refl)))

  from_resolver-Tried :
      (resolve : Tier → Option Adapter) (o : Option Adapter)
      → w.resolver ≡ some resolve
      → resolve tier ≡ o
      → Tried w task tier complexity (from_resolver o task tier complexity)
  from_resolver-Tried resolve none k d = inr (far, inr (resolve, k, inl (d, refl, refl)))
  from_resolver-Tried resolve (some do_remote) k d = from_adapter-Tried resolve do_remote _ k d refl

  from_remote-Tried :
      (o : Option (Tier → Option Adapter))
      → w.resolver ≡ o
      → Tried w task tier complexity (from_remote o task tier complexity)
  from_remote-Tried none k = inr (far, inl (k, refl, refl))
  from_remote-Tried (some resolve) k = from_resolver-Tried resolve _ k refl

make-Tried :
    (w : World) (task : Str) (tier : Tier) (complexity : Complexity)
    → Tried w task tier complexity (make w task tier complexity)
unfolding make
make-Tried w task tier complexity = elim (Bool-cases (is_local tier)) [
  | inl l ↦
      let here = (is_local-IsLocal tier).0 l in
      elim (Bool-cases w.model.loads) [
        | inl k ↦
            let same : make w task tier complexity
                ≡ from_completion (complete w.model.resident (w.model.call task)).0 =
              rw (l, k, make) refl in
            subst (Tried w task tier complexity) (sym same)
              (from_completion-Tried w task tier complexity _ here k refl)
        | inr k ↦
            let same : make w task tier complexity ≡ not_made 503 "model_not_loaded" =
              rw (l, k, make) refl in
            subst (Tried w task tier complexity) (sym same) (inl (here, inl (k, refl, refl)))
      ]
  | inr l ↦
      let same : make w task tier complexity ≡ from_remote w.resolver task tier complexity =
        rw (l, make) refl in
      subst (Tried w task tier complexity) (sym same) (
        from_remote-Tried w task tier complexity (λ here. cc ((is_local-IsLocal tier).1 here, l))
          w.resolver refl)
]

-- A request that is answered with 200, from the registry behind the session's check.
pub record Completes (r : Registry) (sid : String) (q : ImplementRequest) (w : World)
    (p : Registry × Reply) : Type 0 where
  pub class : ClassifyResult
  pub route_result : RouteResult
  pub content : String
  pub tokens : ℕ
  pub classifies : classify q.task ≡ ok class
  pub routes : route class.complexity q.force_tier ≡ ok route_result
  pub makes : Makes w (enrich w.graft q.task) route_result.tier class.complexity content tokens
  pub reply :
      p.1
      ≡ write_ok (
          implement_response (record {
            files_changed = q.files;
            status = "complete";
            reasoning_tags = q.reasoning_tags ++ route_result.reasoning_tags;
            content = content;
            total_tokens = tokens;
          }))
  pub charged : p.0 ≡ charge r sid route_result.tier w.charging tokens

-- The statuses and codes of a request that got past the session's check and was not completed.
abbrev pub Errs : ImplementRequest → World → ℕ → String → Type 0
Errs q w status code =
    ((status ≡ 500) × (code ≡ "classify_error") × (e : RouterError) × (classify q.task ≡ err e))
    ⊎ ((c : ClassifyResult) × (classify q.task ≡ ok c)
        × (((status ≡ 500)
              × (code ≡ "route_error")
              × (e : RouterError) × (route c.complexity q.force_tier ≡ err e))
            ⊎ ((rr : RouteResult) × (route c.complexity q.force_tier ≡ ok rr)
                × Refuses w (enrich w.graft q.task) rr.tier c.complexity status code)))

-- The registry is left as the check left it.
abbrev pub Fails : Registry → ImplementRequest → World → Registry × Reply → Type 0
Fails r q w p =
    (p.0 ≡ r)
    × (status : ℕ) × (code : String) × (p.1 ≡ write_error status code)
    × Errs q w status code

module _ (r : Registry) (sid : String) (q : ImplementRequest) (w : World) where
  settle-cases :
      (c : ClassifyResult) (rr : RouteResult) (m : Made)
      → classify q.task ≡ ok c
      → route c.complexity q.force_tier ≡ ok rr
      → Tried w (enrich w.graft q.task) rr.tier c.complexity m
      → Completes r sid q w (settle r sid q w rr m) ⊎ Fails r q w (settle r sid q w rr m)
  settle-cases c rr (made content tokens) k x e = inl (record {
    class = c;
    route_result = rr;
    content = content;
    tokens = tokens;
    classifies = k;
    routes = x;
    makes = e;
    reply = refl;
    charged = refl;
  })
  settle-cases c rr (not_made status code) k x e =
      inr (refl, status, code, refl, inr (c, k, inr (rr, x, e)))

  routed-cases :
      (c : ClassifyResult) (a : Result RouteResult)
      → classify q.task ≡ ok c
      → route c.complexity q.force_tier ≡ a
      → Completes r sid q w (routed r sid q w c.complexity a)
        ⊎ Fails r q w (routed r sid q w c.complexity a)
  routed-cases c (err e) k x =
      inr (refl, 500, "route_error", refl, inr (c, k, inl (refl, refl, e, x)))
  routed-cases c (ok rr) k x =
      settle-cases c rr _ k x (make-Tried w (enrich w.graft q.task) rr.tier c.complexity)

  classified-cases :
      (a : Result ClassifyResult)
      → classify q.task ≡ a
      → Completes r sid q w (classified r sid q w a) ⊎ Fails r q w (classified r sid q w a)
  classified-cases (err e) k = inr (refl, 500, "classify_error", refl, inl (refl, refl, e, k))
  classified-cases (ok c) k = routed-cases c _ k refl

  after_check-cases :
      (a : Answer)
      → (a ≡ pass)
          × (Completes r sid q w (after_check r sid q w a) ⊎ Fails r q w (after_check r sid q w a))
        ⊎ ((e : Registry.PolicyError) × (a ≡ refused e) × (after_check r sid q w a ≡ (r, throttle)))
        ⊎ (a ≡ panic) × (after_check r sid q w a ≡ (r, aborted))
  after_check-cases pass = inl (refl, classified-cases _ refl)
  after_check-cases (refused e) = inr (inl (e, refl, refl))
  after_check-cases panic = inr (inr (refl, refl))

-- A request whose body decodes is answered with 200 only if its session passes the check, its task
-- is classified and routed, and the routed tier answers the task with its context: the resident's
-- completion for a local tier, the result of its adapter for a remote one. Then the tokens are charged
-- to the session and to that tier. A session that is refused gets a 429. Any other failure is one of
-- seven, with its own status and code: 500 if the task is not classified, not routed or gets no
-- completion, 503 if the model is not loaded or there is no resolver or no adapter for the tier, and
-- 502 if the adapter fails. None of them charges anything, and the registry is as the check left it.
pub handle_implement_lem :
    (r : Registry) (sid : String) (q : ImplementRequest) (w : World)
    → let (checked, a) = check_session r sid w.readings in
      (a ≡ pass)
        × (Completes checked sid q w (handle_implement r sid (some q) w)
            ⊎ Fails checked q w (handle_implement r sid (some q) w))
      ⊎ ((e : Registry.PolicyError) × (a ≡ refused e)
          × (handle_implement r sid (some q) w ≡ (checked, throttle)))
      ⊎ (a ≡ panic) × (handle_implement r sid (some q) w ≡ (checked, aborted))
unfolding handle_implement
handle_implement_lem r sid q w =
    after_check-cases (check_session r sid w.readings).0 sid q w (check_session r sid w.readings).1
