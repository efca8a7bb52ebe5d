-- ===== src/Redis/StreamId.antt =====
-- internal/store/redis/stream_time.go: the time in a stream id, and the key of a stream.
use bid_lane.Prelude.{
  ℕ, ap, sym, ◌∙◌, ◌^◌, ◌<◌, refl, ◌≡◌, ◌≢◌, ◌∷◌, [], ◌++◌, Option, none, some, Text, is_empty,
  false, ◌||◌, Option-cases, inl, inr, arith, if◌then◌else◌,
}
use bid_lane.Prelude.Int.{pos_part, ℤ, pos, negsuc}
use bid_lane.Go.Strconv.{parse_int, parse_uint, format_uint, format_int, split_once}
use bid_lane.Go.Strconv.RoundTrip.{
  parse_int-format, parse_uint-format, split_once-format, format_uint-HasDigits, HasDigits,
}
use bid_lane.Go.Time.{Time, zero_time, unix_milli}

-- The errors of StreamEntryTime.
pub data StreamIdError : Type 0 where
  invalid_stream_id bad_timestamp negative_timestamp bad_sequence : StreamIdError

pub data TimeResult : Type 0 where
  at : Time → TimeResult
  fails : StreamIdError → TimeResult

-- The check of the sequence component, and the time of the other one.
check_sequence : ℕ → Option ℕ → TimeResult
check_sequence ms none = fails bad_sequence
check_sequence ms (some _) = at (unix_milli ms)

from_milliseconds : Option ℤ → Text → TimeResult
unfolding check_sequence
from_milliseconds none seq = fails bad_timestamp
from_milliseconds (some (negsuc _)) seq = fails negative_timestamp
from_milliseconds (some (pos ms)) seq = check_sequence ms (parse_uint seq)

from_parts : Option (Text × Text) → TimeResult
unfolding from_milliseconds
from_parts none = fails invalid_stream_id
from_parts (some (ms, seq)) =
    if is_empty ms || is_empty seq
    then fails invalid_stream_id
    else from_milliseconds (parse_int ms) seq

-- StreamEntryTime
unfoldable pub stream_entry_time : Text → TimeResult
unfolding from_parts
stream_entry_time id = from_parts (split_once b'-' id)

-- The id that Redis gives to the entry `seq` of the millisecond `ms`.
abbrev pub stream_id : ℕ → ℕ → Text
stream_id ms seq = format_uint ms ++ b'-' ∷ format_uint seq

HasDigits-not_empty : (s : Text) → HasDigits s → is_empty s ≡ false
HasDigits-not_empty [] h = elim h [ ]
HasDigits-not_empty (c ∷ s) h = refl

not_empty : (n : ℕ) → is_empty (format_uint n) ≡ false
not_empty n = HasDigits-not_empty (format_uint n) (format_uint-HasDigits n)

parse_int-uint : (n : ℕ) → n < 2 ^ 63 → parse_int (format_uint n) ≡ some (pos n)
unfolding format_int
parse_int-uint n h = parse_int-format (pos n) (h, omega arith)

unix_milli-ne-zero : (ms : ℕ) → unix_milli ms ≢ zero_time
unfolding unix_milli
unix_milli-ne-zero ms e = absurd (omega (arith, ap pos_part e))

-- The time of the id <ms>-<seq> is the instant ms milliseconds after the epoch, whatever seq is.
pub stream_entry_time-stream_id :
    (ms seq : ℕ)
    → ms < 2 ^ 63
    → seq < 2 ^ 64
    → stream_entry_time (stream_id ms seq) ≡ at (unix_milli ms)
unfolding stream_entry_time
stream_entry_time-stream_id ms seq h k = rw (
  split_once-format b'-' ms (format_uint seq) (omega arith),
  not_empty ms,
  not_empty seq,
  parse_int-uint ms h,
  parse_uint-format seq k,
)

from_time : (n : ℕ) (t : Time) → t ≡ unix_milli n → (ms : ℕ) × (t ≡ unix_milli ms) × (t ≢ zero_time)
from_time n t e = (n, e, λ z. unix_milli-ne-zero n (sym e ∙ z))

-- Every time that comes out is that of a number of milliseconds from 1970 on, so it is never Go's
-- zero time.
pub stream_entry_time_sound :
    (id : Text) (t : Time)
    → stream_entry_time id ≡ at t
    → (ms : ℕ) × (t ≡ unix_milli ms) × (t ≢ zero_time)
unfolding stream_entry_time
stream_entry_time_sound id t h = elim (Option-cases (split_once b'-' id)) [
  | inl e ↦ absurd (ground arith)
  | inr ((ms, seq), e) ↦ elim (Option-cases (parse_int ms)) [
    | inl e' ↦ absurd (ground arith)
    | inr (negsuc n, e') ↦ absurd (ground arith)
    | inr (pos n, e') ↦ from_time n t (ground arith)
  ]
]
