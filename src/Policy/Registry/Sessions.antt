-- ===== src/Policy/Registry/Sessions.antt =====
-- The checks of internal/policy/registry.go, session by session.
use go_mcp_gateway.Common.{
  ◌<◌, ◌^◌, ◌≡◌, ◌≢◌, ◌↔◌, refl, String, some, name_eq, arith, eq_iff, if◌then◌else◌,
}
use go_mcp_gateway.Common.Dict
use go_mcp_gateway.Common.Dict.{lookup-insert}
use go_mcp_gateway.Common.Int.{ℤ, pos, ◌<ℤ◌}
use go_mcp_gateway.Policy.Clock.{Time}
use go_mcp_gateway.Policy.Bucket.{
  TokenBucket, Verdict, allowed, rate_limited, token_budget_exhausted, panics, check_rate,
  check_tokens,
}
use go_mcp_gateway.Policy.Bucket.Window.{recent, check_rate_lem}
use go_mcp_gateway.Policy.Bucket.Tokens.{spent, Counts, check_tokens_lem}
use go_mcp_gateway.Policy.Registry.{
  Registry, Readings, pass, answer_for, after_rate, check_session, check_bucket,
  get_or_create_session, deduct_session,
}

-- A check and a deduction touch no session but their own, and no tier.
pub check_session_alone :
    (r : Registry) (session_id other : String) (t : Readings) (created now : Time) (tokens : ℤ)
    → session_id ≢ other
    → (Dict.lookup other (check_session r session_id t).0.sessions ≡ Dict.lookup other r.sessions)
      × (Dict.lookup other (deduct_session r session_id created now tokens).sessions
          ≡ Dict.lookup other r.sessions)
      × ((check_session r session_id t).0.tiers ≡ r.tiers)
      × ((deduct_session r session_id created now tokens).tiers ≡ r.tiers)
unfolding check_session deduct_session
check_session_alone r session_id other t created now tokens h =
    (rw lookup-insert (other_entry _), rw lookup-insert (other_entry _), refl, refl)
  where
    other_entry :
        (b : TokenBucket)
        → (if name_eq other session_id then some b else Dict.lookup other r.sessions)
          ≡ Dict.lookup other r.sessions
    other_entry b = ground (arith, eq_iff other session_id)

check_rate_keeps :
    (b : TokenBucket) (now clock : Time)
    → ((check_rate b now clock).0.token_deductions ≡ b.token_deductions)
      × ((check_rate b now clock).0.token_limit_per_hour ≡ b.token_limit_per_hour)
unfolding check_rate
check_rate_keeps b now clock = ground arith

after_rate_lem :
    (t : Readings) (p : TokenBucket × Verdict)
    → ((after_rate t p).1 ≡ allowed)
      ↔ ((p.1 ≡ allowed) × ((check_tokens p.0 t.now t.token_clock).1 ≡ allowed))
unfolding after_rate
after_rate_lem t (b, allowed) = (λ e. (refl, e), λ e. e.1)
after_rate_lem t (b, rate_limited n) = (λ e. cc e, λ e. cc (e.0))
after_rate_lem t (b, token_budget_exhausted n) = (λ e. cc e, λ e. cc (e.0))
after_rate_lem t (b, panics) = (λ e. cc e, λ e. cc (e.0))

answer_pass : (session_id : String) (v : Verdict) → (answer_for session_id v ≡ pass) ↔ (v ≡ allowed)
answer_pass session_id allowed = (λ _. refl, λ _. refl)
answer_pass session_id (rate_limited n) = (λ e. cc e, λ e. cc e)
answer_pass session_id (token_budget_exhausted n) = (λ e. cc e, λ e. cc e)
answer_pass session_id panics = (λ e. cc e, λ e. cc e)

check_bucket_lem :
    (b : TokenBucket) (t : Readings)
    → Counts b.token_deductions
    → spent t.now b.token_deductions < 2 ^ 63
    → ((check_bucket b t).1 ≡ allowed) ↔ (
        (pos (recent t.now b.request_times) <ℤ b.rate_limit_per_min)
        × (pos (spent t.now b.token_deductions) <ℤ b.token_limit_per_hour))
unfolding check_bucket
check_bucket_lem b t h k =
    let p = check_rate b t.now t.rate_clock in
    let keeps = check_rate_keeps b t.now t.rate_clock in
    let rate = (check_rate_lem b t.now t.rate_clock).0 in
    let tokens =
      (check_tokens_lem p.0 t.now t.token_clock t.now t.now (pos 0) (rw (keeps.0) h)
        (rw (keeps.0) k) (omega arith)).0 in
    let both = after_rate_lem t p in
    (
      λ e. (rate.0 (both.0 e).0, ground (arith, keeps.0, keeps.1, tokens.0 (both.0 e).1)),
      λ e. both.1 (rate.1 e.0, tokens.1 (ground (arith, keeps.0, keeps.1, e.1))),
    )

-- A session passes the check exactly if it made fewer requests in the last minute than the rate
-- limit, and spent fewer tokens in the last hour than the token limit.
pub check_session_lem :
    (r : Registry) (session_id : String) (t : Readings)
    → Counts (get_or_create_session r session_id t.created).token_deductions
    → spent t.now (get_or_create_session r session_id t.created).token_deductions < 2 ^ 63
    → ((check_session r session_id t).1 ≡ pass) ↔ (
        (pos (recent t.now (get_or_create_session r session_id t.created).request_times)
          <ℤ (get_or_create_session r session_id t.created).rate_limit_per_min)
        × (pos (spent t.now (get_or_create_session r session_id t.created).token_deductions)
            <ℤ (get_or_create_session r session_id t.created).token_limit_per_hour))
unfolding check_session
check_session_lem r session_id t h k =
    let b = get_or_create_session r session_id t.created in
    let bucket = check_bucket_lem b t h k in
    let answer = answer_pass session_id (check_bucket b t).1 in
    (λ e. bucket.0 (answer.0 e), λ e. answer.1 (bucket.1 e))
