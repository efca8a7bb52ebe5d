-- ===== src/Go/Strconv/RoundTrip.antt =====
-- A printed number is read back.
use bid_lane.Prelude.{
  ℕ, zero, suc, ◌+◌, ◌/◌, ◌%◌, ◌^◌, ◌≤◌, ◌<◌, refl, inl, inr, ◌≡◌, ◌∷◌, [], ◌++◌, some, Text, ltb,
  Bool-cases, arith, All,
}
use bid_lane.Prelude.Int.{ℤ, pos, negsuc}
use bid_lane.Go.Int64.{IsInt64}
use bid_lane.Go.Strconv.{
  read_digits, read_number, parse_uint, parse_int, print_digits, format_uint, format_int,
  split_once,
}

read_digits-print :
    (f n : ℕ) (out : Text) → n < f → read_digits 0 (print_digits f n out) ≡ read_digits n out
unfolding read_digits print_digits
read_digits-print zero n out h = elim h [ ]
read_digits-print (suc f) n out h =
    ground (arith, read_digits-print f (n / 10) ((b'0' + n % 10) ∷ out))

-- One digit or more.
abbrev pub HasDigits : Text → Type 0
HasDigits [] = ⊥
HasDigits (c ∷ s) = (b'0' ≤ c) × (c ≤ b'9') × All (λ d. (b'0' ≤ d) × (d ≤ b'9')) s

HasDigits-All : (s : Text) → HasDigits s → All (λ d. (b'0' ≤ d) × (d ≤ b'9')) s
HasDigits-All [] h = tt
HasDigits-All (c ∷ s) h = ((h.0, h.1), h.2)

print_digits-HasDigits :
    (f n : ℕ) (out : Text)
    → n < f
    → All (λ d. (b'0' ≤ d) × (d ≤ b'9')) out
    → HasDigits (print_digits f n out)
unfolding print_digits
print_digits-HasDigits zero n out h d = elim h [ ]
print_digits-HasDigits (suc f) n out h d = elim (Bool-cases (ltb n 10)) [
  | inl last ↦ rw last (omega arith, omega arith, d)
  | inr more ↦ rw more (
      print_digits-HasDigits f (n / 10) ((b'0' + n % 10) ∷ out) (ground arith)
        ((omega arith, omega arith), d))
]

pub format_uint-HasDigits : (n : ℕ) → HasDigits (format_uint n)
unfolding format_uint
format_uint-HasDigits n = print_digits-HasDigits (n + 1) n [] (omega arith) tt

read_number_digits : (s : Text) → HasDigits s → read_number s ≡ read_digits 0 s
unfolding read_number
read_number_digits [] h = elim h [ ]
read_number_digits (c ∷ s) h = refl

pub read_number-format : (n : ℕ) → read_number (format_uint n) ≡ some n
unfolding format_uint read_digits
read_number-format n = rw (
  read_number_digits (format_uint n) (format_uint-HasDigits n),
  read_digits-print (n + 1) n [] (omega arith),
)

pub parse_uint-format : (n : ℕ) → n < 2 ^ 64 → parse_uint (format_uint n) ≡ some n
unfolding parse_uint
parse_uint-format n h = rw (read_number-format n) (ground arith)

-- A text that begins with a digit has no sign.
parse_int_unsigned :
    (s : Text) (n : ℕ)
    → HasDigits s
    → read_number s ≡ some n
    → n < 2 ^ 63
    → parse_int s ≡ some (pos n)
unfolding parse_int
parse_int_unsigned [] n h e lt = elim h [ ]
parse_int_unsigned (c ∷ s) n h e lt = ground arith

-- An int64 that is printed is read back.
pub parse_int-format : (z : ℤ) → IsInt64 z → parse_int (format_int z) ≡ some z
unfolding format_int
parse_int-format (pos n) h =
    parse_int_unsigned (format_uint n) n (format_uint-HasDigits n) (read_number-format n) h.0
parse_int-format (negsuc n) h = unfold parse_int in rw (read_number-format (n + 1)) (ground arith)

-- A number in front of the separator is split off whole.
split_digits :
    (sep : ℕ) (s t : Text)
    → sep < b'0'
    → All (λ d. (b'0' ≤ d) × (d ≤ b'9')) s
    → split_once sep (s ++ sep ∷ t) ≡ some (s, t)
unfolding split_once
split_digits sep [] t h d = ground arith
split_digits sep (c ∷ s) t h d = ground (arith, split_digits sep s t h d.1)

pub split_once-format :
    (sep n : ℕ) (t : Text)
    → sep < b'0'
    → split_once sep (format_uint n ++ sep ∷ t) ≡ some (format_uint n, t)
split_once-format sep n t h =
    split_digits sep (format_uint n) t h (HasDigits-All _ (format_uint-HasDigits n))
