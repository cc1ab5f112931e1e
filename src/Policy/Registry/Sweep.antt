-- ===== src/Policy/Registry/Sweep.antt =====
-- The sweep of internal/policy/registry.go.
use go_mcp_gateway.Common.{◌≡◌, refl, String, some, none, true, ◌∙◌, not, Bool}
use go_mcp_gateway.Common.Dict
use go_mcp_gateway.Common.Dict.{IsDistinct, lookup-retain, lookup-map_values}
use go_mcp_gateway.Policy.Clock.{Time}
use go_mcp_gateway.Policy.Bucket
use go_mcp_gateway.Policy.Bucket.{TokenBucket}
use go_mcp_gateway.Policy.TierBudget.{prune}
use go_mcp_gateway.Policy.Registry.{Registry, is_idle, sweep, get_or_create_session}

-- The sweep drops exactly the idle sessions, leaves the buckets of the others as they are, and
-- prunes every tier.
pub sweep_lem :
    (r : Registry) (now : Time) (held : Bool) (key : String)
    → IsDistinct r.sessions
    → (Dict.lookup key (sweep r now held).sessions
        ≡ Dict.keep_if (λ b. not (is_idle r.cfg now b)) (Dict.lookup key r.sessions))
      × (Dict.lookup key (sweep r now held).tiers
          ≡ Dict.map_if (λ b. prune b held now) (Dict.lookup key r.tiers))
unfolding sweep
sweep_lem r now held key h = (lookup-retain key _ _ h, lookup-map_values key _ _)

-- The hourly budget does not outlive the sweep: a session that is idle at a sweep comes back with
-- an empty bucket, whatever it spent within the hour.
pub sweep_forgets :
    (r : Registry) (now created : Time) (held : Bool) (session_id : String) (b : TokenBucket)
    → IsDistinct r.sessions
    → Dict.lookup session_id r.sessions ≡ some b
    → is_idle r.cfg now b ≡ true
    → get_or_create_session (sweep r now held) session_id created
      ≡ Bucket.new_token_bucket r.cfg.rate_limit_per_min r.cfg.token_limit_per_hour created
unfolding get_or_create_session
sweep_forgets r now created held session_id b h e idle =
    let gone : Dict.lookup session_id (sweep r now held).sessions ≡ none =
      (sweep_lem r now held session_id h).0 ∙ (rw (e, idle)) in
    rw (gone, get_or_create_session) (unfold sweep in refl)
