-- ===== src/Text/Number.antt =====
-- Decimal numbers: `strconv.Atoi` on digits, and `%d`.
pub mod RoundTrip
use sbnn.Prelude.{
  Bool, Bytes, Option, [], if◌then◌else◌, leb, ltb, none, some, suc, true, zero, ℕ, ◌%◌, ◌&&◌, ◌*◌,
  ◌+◌, ◌-◌, ◌/◌, ◌^◌, ◌∷◌,
}

unfoldable pub is_digit : ℕ → Bool
is_digit c = leb b'0' c && leb c b'9'

unfoldable pub all_digits : Bytes → Bool
unfolding is_digit
all_digits [] = true
all_digits (c ∷ s) = is_digit c && all_digits s

abbrev pub digit : ℕ → ℕ
digit c = c - b'0'

unfoldable pub value_from : ℕ → Bytes → ℕ
value_from n [] = n
value_from n (c ∷ s) = value_from (n * 10 + digit c) s

-- The largest value of Go's `int` on a 64 bit machine.
abbrev pub max_int : ℕ
max_int = 2 ^ 63 - 1

-- `strconv.Atoi` on a string of digits, which fails out of range.
unfoldable pub atoi : Bytes → Option ℕ
unfolding value_from
atoi s = let n = value_from 0 s in if leb n max_int then some n else none

-- The digits of a number in front of `after`; `fuel` is above the number.
unfoldable pub digits_onto : ℕ → ℕ → Bytes → Bytes
digits_onto zero n after = after
digits_onto (suc fuel) n after =
    let one = (n % 10 + b'0') ∷ after in
    let more = digits_onto fuel (n / 10) ((n % 10 + b'0') ∷ after) in if ltb n 10 then one else more

unfoldable pub itoa : ℕ → Bytes
unfolding digits_onto
itoa n = digits_onto (suc n) n []
