-- ===== src/Policy/Clock.antt =====
-- Time as internal/policy uses it. A `time.Time` is the number of nanoseconds since the zero time;
-- a `time.Duration` is a signed number of nanoseconds, and `Sub` stops at the ends of int64.
use go_mcp_gateway.Common.{ℕ, ◌+◌, ◌-◌, ◌*◌, ◌/◌, ◌^◌, suc, Bool, if◌then◌else◌, ltb}
use go_mcp_gateway.Common.Int.{ℤ, pos, negsuc, sub_ℕ, ltb_ℤ, wrap64, ◌+ℤ◌}

abbrev pub Time : Type 0
Time = ℕ

abbrev pub second : ℕ
second = 1_000_000_000

abbrev pub minute : ℕ
minute = 60 * 1_000_000_000

abbrev pub hour : ℕ
hour = 3600 * 1_000_000_000

abbrev pub day : ℕ
day = 86400 * 1_000_000_000

-- `t.After(now.Add(-window))`, with no negative time.
abbrev pub within : ℕ → Time → Time → Bool
within window now t = ltb now (t + window)

-- `t.Sub(now)`: the difference, kept to the range of int64.
unfoldable pub sub_time : Time → Time → ℤ
sub_time t now =
    let d = sub_ℕ t now in
    if ltb_ℤ d (negsuc (2 ^ 63 - 1))
    then negsuc (2 ^ 63 - 1)
    else if ltb_ℤ (pos (2 ^ 63 - 1)) d
    then pos (2 ^ 63 - 1)
    else d

-- `int(d.Seconds())`: whole seconds, rounded towards zero. The source goes through float64, which
-- is exact for the seconds of the durations that occur.
unfoldable pub whole_seconds : ℤ → ℤ
whole_seconds (pos n) = pos (n / second)
whole_seconds (negsuc n) = sub_ℕ 0 (suc n / second)

-- `int(time.Until(deadline).Seconds()) + 1`, by the clock at the time of the call.
unfoldable pub retry_after : Time → Time → ℤ
unfolding sub_time whole_seconds
retry_after deadline clock = wrap64 (whole_seconds (sub_time deadline clock) +ℤ pos 1)
