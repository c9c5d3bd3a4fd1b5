-- ===== src/Flow/Time.antt =====
-- time.Time as an instant, in nanoseconds since the earliest instant that it can hold: 2^63 seconds
-- before the zero Time (January 1, year 1, UTC). Locations and monotonic readings are left out:
-- every function below reads instants only, and `UTC()` changes none.
use netflow_collector.Base.{ℕ, ◌+◌, ◌-◌, ◌*◌, ◌/◌, ◌%◌, ◌^◌, Bool, ◌==◌}

abbrev pub Time : Type 0
Time = ℕ

abbrev pub second : ℕ
second = 1_000_000_000

abbrev pub millisecond : ℕ
millisecond = 1_000_000

-- The zero Time.
abbrev pub zero_time : Time
zero_time = 2 ^ 63 * second

abbrev pub is_zero : Time → Bool
is_zero t = t == zero_time

-- `t.UTC().Truncate(time.Microsecond)`: instants count from the zero Time, a whole second.
abbrev pub trunc_micro : Time → Time
trunc_micro t = t / 1000 * 1000

-- Seconds from the zero Time to the Unix epoch.
abbrev pub unix_offset : ℕ
unix_offset = 62_135_596_800

-- `time.Unix(sec, nsec)` with `sec` an int64 given by its bit pattern and `nsec` below a second:
-- the seconds wrap as the library's int64 addition does.
abbrev pub unix : ℕ → ℕ → Time
unix sec nsec = (sec + unix_offset + 2 ^ 63) % 2 ^ 64 * second + nsec

-- `t.UnixMicro()`, as the bit pattern of an int64.
abbrev pub unix_micro : Time → ℕ
unix_micro t =
    (t / 1000 + 2 ^ 64 * 1_000_000_000_000_000 - (2 ^ 63 + unix_offset) * 1_000_000) % 2 ^ 64
