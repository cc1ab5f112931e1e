-- ===== src/Rest/Gate.antt =====
-- Which requests to internal/rest/handlers.go touch the registry.
use go_mcp_gateway.Common.{
  ◌≡◌, ◌≢◌, refl, sym, ap, subst, ◌⊎◌, inl, inr, true, false, Bool-cases, none, some, Option,
  String, name_eq, eq_iff,
}
use go_mcp_gateway.Common.Text.{codes, contains}
use go_mcp_gateway.Policy.Registry.{Registry}
use go_mcp_gateway.Rest.{
  Request, Bodies, World, ImplementRequest, Reply, responded, write_error, error_response,
  method_gate, handle_implement, handle_classify, handle_interpret, not_found, session_key, serve,
}

-- What the gate of a method answers: an error that leaves the registry alone, or the handler's reply.
abbrev pub Gated : Request → Registry → Registry × Reply → Registry × Reply → Type 0
Gated q r next p =
    (q.method ≢ "POST")
      × (p ≡ (
        r,
        responded (record {
          status = 405;
          allow = some "POST";
          throttled = false;
          body = error_response "method_not_allowed";
        }),
      ))
    ⊎ (q.method ≡ "POST")
      × (contains q.content_type (codes "application/json") ≡ false)
      × (p ≡ (r, write_error 415 "unsupported_media_type"))
    ⊎ (q.method ≡ "POST") × (contains q.content_type (codes "application/json") ≡ true) × (p ≡ next)

method_gate-Gated :
    (q : Request) (r : Registry) (next : Registry × Reply)
    → Gated q r next (method_gate "POST" q r next)
unfolding method_gate
method_gate-Gated q r next = elim (Bool-cases (name_eq q.method "POST")) [
  | inl e ↦ elim (Bool-cases (contains q.content_type (codes "application/json"))) [
    | inl f ↦ inr (inr ((eq_iff q.method "POST").0 e, f, rw (e, f) refl))
    | inr f ↦ inr (inl ((eq_iff q.method "POST").0 e, f, rw (e, f) refl))
  ]
  | inr e ↦ inl (λ k. cc ((eq_iff q.method "POST").1 k, e), rw e refl)
]

keeps :
    (q : Request) (r : Registry) (reply : Reply) (p : Registry × Reply)
    → Gated q r (r, reply) p
    → p.0 ≡ r
keeps q r reply p (inl (m, e)) = ap (λ x. x.0) e
keeps q r reply p (inr (inl (m, c, e))) = ap (λ x. x.0) e
keeps q r reply p (inr (inr (m, c, e))) = ap (λ x. x.0) e

-- Who may change the registry behind the gate of /implement.
abbrev Handles :
    (String → String)
    → Registry
    → Request
    → Option ImplementRequest
    → World
    → Registry × Reply
    → Type 0
Handles hash r q body w p =
    (p.0 ≡ r)
    ⊎ ((b : ImplementRequest) × (q.method ≡ "POST")
        × (contains q.content_type (codes "application/json") ≡ true)
        × (body ≡ some b)
        × (p ≡ handle_implement r (session_key hash q) (some b) w))

Gated-Handles :
    (hash : String → String) (r : Registry) (q : Request) (body : Option ImplementRequest)
    (w : World) (p : Registry × Reply)
    → Gated q r (handle_implement r (session_key hash q) body w) p
    → Handles hash r q body w p
unfolding handle_implement
Gated-Handles hash r q body w p (inl (m, e)) = inl (ap (λ x. x.0) e)
Gated-Handles hash r q body w p (inr (inl (m, c, e))) = inl (ap (λ x. x.0) e)
Gated-Handles hash r q none w p (inr (inr (m, c, e))) = inl (ap (λ x. x.0) e)
Gated-Handles hash r q (some b) w p (inr (inr (m, c, e))) = inr (b, m, c, refl, e)

-- Only a POST of JSON to /implement whose body decodes can change the registry, and then it is what
-- the handler does for the session of its headers. Every other request leaves it as it was.
pub serve_lem :
    (hash : String → String) (r : Registry) (q : Request) (bodies : Bodies) (w : World)
    → ((serve hash r q bodies w).0 ≡ r)
      ⊎ ((b : ImplementRequest) × (q.path ≡ "/implement")
          × (q.method ≡ "POST")
          × (contains q.content_type (codes "application/json") ≡ true)
          × (bodies.implement ≡ some b)
          × (serve hash r q bodies w ≡ handle_implement r (session_key hash q) (some b) w))
unfolding serve
serve_lem hash r q bodies w = elim (Bool-cases (name_eq q.path "/classify")) [
  | inl e ↦
      let same : serve hash r q bodies w
          ≡ method_gate "POST" q r (r, handle_classify bodies.classify_task) =
        rw (e, serve) refl in
      inl (
        keeps q r _ _ (
          subst (Gated q r (r, handle_classify bodies.classify_task)) (sym same)
            (method_gate-Gated q r _)))
  | inr e ↦ elim (Bool-cases (name_eq q.path "/implement")) [
    | inl f ↦
        let same : serve hash r q bodies w
            ≡ method_gate "POST" q r (handle_implement r (session_key hash q) bodies.implement w) =
          rw (e, f, serve) refl in
        behind f (serve hash r q bodies w) (
          Gated-Handles hash r q bodies.implement w _ (
            subst (Gated q r (handle_implement r (session_key hash q) bodies.implement w))
              (sym same) (method_gate-Gated q r _)))
    | inr f ↦ elim (Bool-cases (name_eq q.path "/interpret")) [
      | inl g ↦
          let same : serve hash r q bodies w
              ≡ method_gate "POST" q r (r, handle_interpret bodies.interpret) =
            rw (e, f, g, serve) refl in
          inl (
            keeps q r _ _ (
              subst (Gated q r (r, handle_interpret bodies.interpret)) (sym same)
                (method_gate-Gated q r _)))
      | inr g ↦
          let same : serve hash r q bodies w ≡ (r, not_found q) = rw (e, f, g, serve) refl in
          inl (ap (λ (x : Registry × Reply). x.0) same)
    ]
  ]
]
  where
    behind :
        name_eq q.path "/implement" ≡ true
        → (p : Registry × Reply) → Handles hash r q bodies.implement w p
        → (p.0 ≡ r)
          ⊎ ((b : ImplementRequest) × (q.path ≡ "/implement")
              × (q.method ≡ "POST")
              × (contains q.content_type (codes "application/json") ≡ true)
              × (bodies.implement ≡ some b)
              × (p ≡ handle_implement r (session_key hash q) (some b) w))
    behind f p (inl e) = inl e
    behind f p (inr (b, m, c, d, e)) = inr (b, (eq_iff q.path "/implement").0 f, m, c, d, e)
