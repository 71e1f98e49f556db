-- ===== src/Js/Number.antt =====
-- Numbers of the language: decimal digits, `parseInt`, rounding to a double, signed integers.
pub mod Decimal
pub mod Numeral
use x402guard.Base.{
  ℕ, zero, suc, ◌+◌, ◌-◌, ◌*◌, ◌/◌, ◌%◌, ◌^◌, Bool, true, false, ◌&&◌, ◌||◌, Option, none, some, [],
  ◌∷◌, leb, ltb, ◌==◌, if◌then◌else◌,
}
use x402guard.Js.Text.{Text, is_empty, is_space, is_digit, take_while, drop_while}

-- The digits of a number in front of `out`. The fuel bounds the number of digits.
digits_of : ℕ → ℕ → Text → Text
digits_of zero n out = out
digits_of (suc fuel) n out =
    let rest = digits_of fuel (n / 10) ((b'0' + n % 10) ∷ out) in
    if ltb n 10 then (b'0' + n % 10) ∷ out else rest

-- A natural number in decimal; `n + 1` rounds are enough for `n`.
unfoldable pub decimal : ℕ → Text
unfolding digits_of
decimal n = digits_of (suc n) n []

-- The number that a run of digits stands for, after the digits of `acc`.
unfoldable pub digits_value : ℕ → Text → ℕ
digits_value acc [] = acc
digits_value acc (c ∷ s) = digits_value (acc * 10 + (c - b'0')) s

-- Every integer up to this one is a double.
abbrev pub max_exact : ℕ
max_exact = 2 ^ 53

-- How many binary digits of `n` a double cannot hold.
unfoldable pub spare_bits : ℕ → ℕ → ℕ
spare_bits zero n = 0
spare_bits (suc fuel) n =
    let more = suc (spare_bits fuel (n / 2)) in if ltb n max_exact then 0 else more

-- `n / 2 ^ k` to the nearest, a tie to the even one, times `2 ^ k`.
round_even : ℕ → ℕ → ℕ
round_even n k =
    let q = n / 2 ^ k in
    let r = 2 * (n % 2 ^ k) in
    if ltb (2 ^ k) r || r == 2 ^ k && q % 2 == 1 then (q + 1) * 2 ^ k else q * 2 ^ k

-- The double nearest to an integer below 2^1024 (what lies above becomes `Infinity`, which is not
-- represented).
unfoldable pub to_double : ℕ → ℕ
unfolding spare_bits round_even
to_double n = if leb n max_exact then n else round_even n (spare_bits 1024 n)

-- An integer; `negsuc n` is -(n + 1).
pub data ℤ : Type 0 where
  pos : ℕ → ℤ
  negsuc : ℕ → ℤ

abbrev pub negate : ℕ → ℤ
negate zero = pos 0
negate (suc n) = negsuc n

-- A product with a natural number.
unfoldable pub scale : ℤ → ℕ → ℤ
scale (pos n) k = pos (n * k)
scale (negsuc n) k = negate (suc n * k)

-- The digits at the beginning of a text as a number, `none` (`NaN`) if there are none.
unfoldable pub leading_number : Text → Option ℕ
unfolding digits_value take_while
leading_number s =
    let ds = take_while is_digit s in
    if is_empty ds then none else some (to_double (digits_value 0 ds))

abbrev pub map_sign : (ℕ → ℤ) → Option ℕ → Option ℤ
map_sign f none = none
map_sign f (some n) = some (f n)

signed_number : Text → Option ℤ
signed_number [] = none
signed_number (c ∷ s) =
    if c == b'-'
    then map_sign negate (leading_number s)
    else if c == b'+'
    then map_sign pos (leading_number s)
    else map_sign pos (leading_number (c ∷ s))

-- `parseInt(s, 10)`; `none` is `NaN`. White space in front is skipped, what follows the digits is
-- ignored.
unfoldable pub parse_int : Text → Option ℤ
unfolding signed_number leading_number
parse_int s = signed_number (drop_while is_space s)
