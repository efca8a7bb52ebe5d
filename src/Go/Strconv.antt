-- ===== src/Go/Strconv.antt =====
-- Go's decimal conversions: strconv.ParseUint and ParseInt with base 10 and 64 bits, strconv's
-- print of an integer, and strings.SplitN with the limit 2. A conversion that fails for its syntax or
-- its range is `none`.
pub mod RoundTrip
use bid_lane.Prelude.{
  ℕ, zero, suc, ◌+◌, ◌-◌, ◌*◌, ◌/◌, ◌%◌, ◌^◌, ◌∷◌, [], Option, none, some, Text, Bool, ◌&&◌, ltb,
  leb, ◌==◌, if◌then◌else◌,
}
use bid_lane.Prelude.Int.{ℤ, pos, negsuc, sub_ℕ}

abbrev pub is_digit : ℕ → Bool
is_digit c = leb b'0' c && leb c b'9'

-- The number that digits spell behind n.
unfoldable pub read_digits : ℕ → Text → Option ℕ
read_digits n [] = some n
read_digits n (c ∷ s) =
    let rest = read_digits (n * 10 + (c - b'0')) s in if is_digit c then rest else none

-- The number of a text of at least one digit.
unfoldable pub read_number : Text → Option ℕ
unfolding read_digits
read_number [] = none
read_number (c ∷ s) = read_digits 0 (c ∷ s)

abbrev pub below : ℕ → Option ℕ → Option ℕ
below bound none = none
below bound (some n) = if ltb n bound then some n else none

unfoldable pub parse_uint : Text → Option ℕ
unfolding read_number
parse_uint s = below (2 ^ 64) (read_number s)

abbrev pub positive : Option ℕ → Option ℤ
positive none = none
positive (some n) = some (pos n)

abbrev pub negative : Option ℕ → Option ℤ
negative none = none
negative (some n) = some (sub_ℕ 0 n)

unfoldable pub parse_int : Text → Option ℤ
unfolding read_number
parse_int [] = none
parse_int (c ∷ s) =
    if c == b'+'
    then positive (below (2 ^ 63) (read_number s))
    else if c == b'-'
    then negative (below (2 ^ 63 + 1) (read_number s))
    else positive (below (2 ^ 63) (read_number (c ∷ s)))

-- The digits of n before `out`; n + 1 rounds are enough, as n / 10 < n.
unfoldable pub print_digits : ℕ → ℕ → Text → Text
print_digits zero n out = out
print_digits (suc f) n out =
    let rest = print_digits f (n / 10) ((b'0' + n % 10) ∷ out) in
    if ltb n 10 then (b'0' + n % 10) ∷ out else rest

unfoldable pub format_uint : ℕ → Text
unfolding print_digits
format_uint n = print_digits (n + 1) n []

unfoldable pub format_int : ℤ → Text
unfolding format_uint
format_int (pos n) = format_uint n
format_int (negsuc n) = b'-' ∷ format_uint (n + 1)

abbrev prepend : ℕ → Option (Text × Text) → Option (Text × Text)
prepend c none = none
prepend c (some (l, r)) = some (c ∷ l, r)

-- SplitN(s, sep, 2) for a separator of one byte; `none` where it yields one part.
unfoldable pub split_once : ℕ → Text → Option (Text × Text)
split_once sep [] = none
split_once sep (c ∷ s) = if c == sep then some ([], s) else prepend c (split_once sep s)
