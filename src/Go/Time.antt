-- ===== src/Go/Time.antt =====
-- Go's time.Time as an instant: nanoseconds from its zero value, 1 January of year 1, UTC.
use bid_lane.Prelude.{ℕ, Bool, ◌+◌, ◌*◌}
use bid_lane.Prelude.Int.{ℤ, pos, ltb_ℤ, eqb_ℤ}

abbrev pub Time : Type 0
Time = ℤ

abbrev pub zero_time : Time
zero_time = pos 0

-- `t.IsZero()`
abbrev pub is_zero : Time → Bool
is_zero t = eqb_ℤ t zero_time

-- `t.Before(u)`
abbrev pub before : Time → Time → Bool
before t u = ltb_ℤ t u

-- The Unix epoch: 62135596800 seconds after the zero value.
abbrev pub unix_epoch : ℕ
unix_epoch = 62135596800 * 1000000000

-- `time.UnixMilli(ms)` for the milliseconds that a stream ID holds, which are not negative.
unfoldable pub unix_milli : ℕ → Time
unix_milli ms = pos (unix_epoch + ms * 1000000)
