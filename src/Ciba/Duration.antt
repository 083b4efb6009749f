-- ===== src/Ciba/Duration.antt =====
-- pkg/storm/plugins/ciba/ciba.go: the durations of the time library, which wrap around.
use kexcore_oidc.Base.{ℕ, ◌+◌, ◌-◌, ◌/◌, ◌%◌, Bool, true, ltb, if◌then◌else◌}

-- `time.Duration`: nanoseconds forward, or back.
pub data Duration : Type 0 where
  ahead behind : ℕ → Duration

-- An `int64` by its two's complement.
unfoldable pub of_int64 : ℕ → Duration
of_int64 n =
    let m = n % 18446744073709551616 in
    if ltb m 9223372036854775808 then ahead m else behind (18446744073709551616 - m)

-- Whether a duration is less than one that is not negative.
abbrev pub is_less : Duration → ℕ → Bool
is_less (ahead n) l = ltb n l
is_less (behind n) l = true

-- `Time.Add`; a time before the epoch is 0.
abbrev pub add_time : (now : ℕ) → Duration → ℕ
add_time now (ahead n) = now + n
add_time now (behind n) = now - n

-- `int(d.Seconds())`, as a duration in seconds.
abbrev pub seconds : Duration → Duration
seconds (ahead n) = ahead (n / 1000000000)
seconds (behind n) = behind (n / 1000000000)
