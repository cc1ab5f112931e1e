-- ===== src/Policy/Bucket.antt =====
-- internal/policy/bucket.go and the session errors of errors.go. A method returns the new bucket
-- beside its result; the mutex makes each call one step. `clock` is the reading of the clock that
-- `time.Until` makes inside the call.
pub mod Window
pub mod Tokens
use go_mcp_gateway.Common.{ℕ, ◌+◌, List, [], ◌∷◌, ◌++◌, length, Bool, if◌then◌else◌}
use go_mcp_gateway.Common.Int.{ℤ, pos, leb_ℤ, ◌+ℤ◌, wrap64}
use go_mcp_gateway.Policy.Clock.{Time, minute, hour, within, retry_after}

pub record TokenDeduction : Type 0 where
  pub at : Time
  pub tokens : ℤ

pub record TokenBucket : Type 0 where
  pub rate_limit_per_min : ℤ
  pub request_times : List Time
  pub token_limit_per_hour : ℤ
  pub token_deductions : List TokenDeduction
  pub last_seen : Time

-- The result of a check. `panics` is the runtime panic of an index out of range.
pub data Verdict : Type 0 where
  allowed : Verdict
  rate_limited : ℤ → Verdict
  token_budget_exhausted : ℤ → Verdict
  panics : Verdict

unfoldable pub new_token_bucket : ℤ → ℤ → Time → TokenBucket
new_token_bucket rate_limit_per_min token_limit_per_hour now = record {
  rate_limit_per_min = rate_limit_per_min;
  request_times = [];
  token_limit_per_hour = token_limit_per_hour;
  token_deductions = [];
  last_seen = now;
}

-- The loop that keeps the requests after the cutoff.
unfoldable pub prune_times : Time → List Time → List Time
prune_times now [] = []
prune_times now (t ∷ ts) =
    let rest = prune_times now ts in if within minute now t then t ∷ rest else rest

-- The refusal reads the first entry of the list.
unfoldable pub refuse_rate : List Time → Time → Verdict
refuse_rate [] clock = panics
refuse_rate (t ∷ ts) clock = rate_limited (retry_after (t + minute) clock)

unfoldable pub check_rate : TokenBucket → Time → Time → TokenBucket × Verdict
unfolding refuse_rate
check_rate b now clock =
    let valid = prune_times now b.request_times in
    if leb_ℤ b.rate_limit_per_min (pos (length valid))
    then (record b { request_times = valid; last_seen = now }, refuse_rate valid clock)
    else (record b { request_times = valid ++ now ∷ []; last_seen = now }, allowed)

-- The loop of `hourlyTokens`: the entries after the cutoff, and their sum from `total` on.
unfoldable pub recent_deductions : Time → List TokenDeduction → List TokenDeduction
recent_deductions now [] = []
recent_deductions now (d ∷ ds) =
    let rest = recent_deductions now ds in if within hour now d.at then d ∷ rest else rest

unfoldable pub sum_recent : Time → ℤ → List TokenDeduction → ℤ
sum_recent now total [] = total
sum_recent now total (d ∷ ds) =
    sum_recent now (if within hour now d.at then wrap64 (total +ℤ d.tokens) else total) ds

unfoldable pub hourly_tokens : TokenBucket → Time → TokenBucket × ℤ
hourly_tokens b now = (
  record b { token_deductions = recent_deductions now b.token_deductions },
  sum_recent now (pos 0) b.token_deductions,
)

-- The zero time if there is no deduction.
unfoldable pub oldest_deduction : List TokenDeduction → Time
oldest_deduction [] = 0
oldest_deduction (d ∷ ds) = d.at

unfoldable pub check_tokens : TokenBucket → Time → Time → TokenBucket × Verdict
unfolding hourly_tokens
check_tokens b now clock =
    let (b', total) = hourly_tokens b now in
    if leb_ℤ b.token_limit_per_hour total
    then (
      b',
      token_budget_exhausted (retry_after (oldest_deduction b'.token_deductions + hour) clock),
    )
    else (b', allowed)

unfoldable pub deduct : TokenBucket → Time → ℤ → TokenBucket
deduct b now tokens = record b {
  token_deductions = b.token_deductions ++ record { at = now; tokens = tokens } ∷ [];
}

unfoldable pub idle_since : TokenBucket → Time
idle_since b = b.last_seen
