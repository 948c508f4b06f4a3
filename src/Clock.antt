-- ===== src/Clock.antt =====
-- Go's `time.Time` and `time.Duration`. A time is the number of nanoseconds since the least time
-- that a `Time` can hold, 2^63 seconds before the year 1, so that it is never negative; a duration
-- is a number of nanoseconds, and the code only ever adds and compares with positive ones.
pub mod Civil
use p2pt_server.Prelude.{ℕ, ◌+◌, ◌-◌, ◌*◌, ◌^◌, ◌/◌, ◌%◌, Bool, true, false, ltb, if◌then◌else◌}

abbrev pub Time : Type 0
Time = ℕ

abbrev pub second : ℕ
second = 1000000000

abbrev pub minute : ℕ
minute = 60 * second

abbrev pub hour : ℕ
hour = 60 * minute

-- time.Time{}, the beginning of the year 1
abbrev pub zero_time : Time
zero_time = 2 ^ 63 * second

-- a.After(b)
abbrev pub after : Time → Time → Bool
after a b = ltb b a

-- a.Before(b)
abbrev pub before : Time → Time → Bool
before a b = ltb a b

-- now.Sub(t) > d
abbrev pub exceeds : Time → Time → ℕ → Bool
exceeds now t d = ltb (t + d) now

-- time.Unix(ts, 0) for a positive `ts`. The seconds since the year 1 are an int64, and wrap around.
abbrev pub unix_time : ℕ → Time
unix_time ts = ((ts + 62135596800 + 2 ^ 63) % 2 ^ 64) * second

-- The seconds from the least time to 1970.
abbrev pub unix_epoch : ℕ
unix_epoch = 2 ^ 63 + 62135596800

-- t.Unix() for a time after 1970
abbrev pub unix_seconds : Time → ℕ
unix_seconds t = t / second - unix_epoch

-- time.Duration(n) * time.Second, an int64 that wraps around, for an `n` that is not negative: the
-- amount and whether it is to be subtracted
abbrev pub seconds : ℕ → ℕ × Bool
seconds n = let d = n * second % 2 ^ 64 in if ltb d (2 ^ 63) then (d, false) else (2 ^ 64 - d, true)

-- t.Add(d)
abbrev pub add_duration : Time → ℕ × Bool → Time
add_duration t (d, false) = t + d
add_duration t (d, true) = t - d
