-- ===== src/Js/Float.antt =====
-- The doubles of the language: `parseFloat`, products, comparison with zero and `Math.round`.

pub mod Laws
pub mod Order
pub mod Parse
use x402guard.Base.{
  ℕ, zero, suc, ◌+◌, ◌-◌, ◌*◌, ◌/◌, ◌%◌, ◌^◌, ltb, leb, ◌==◌, Bool, true, false, not, ◌&&◌, ◌||◌,
  Option, none, some, [], ◌∷◌, ◌++◌, length, if◌then◌else◌,
}
use x402guard.Js.Text.{
  Text, text, is_empty, is_space, is_digit, starts_with, take_while, drop_while,
}
use x402guard.Js.Number.{ℤ, pos, negate, digits_value, spare_bits}
use x402guard.Js.Json.{Json, num}

-- A finite double is a multiple of 2^-1074, the least positive one: `finite negative n` is n times
-- that, with the sign beside it.
unfoldable pub unit : ℕ
unit = 2 ^ 1074

pub data Float : Type 0 where
  nan : Float
  infinite : (negative : Bool) → Float
  finite : (negative : Bool) → ℕ → Float

-- A quotient `a / b` to the nearest, a tie to the even one.
unfoldable pub nearest : ℕ → ℕ → ℕ
nearest a b = if ltb b (2 * (a % b)) || 2 * (a % b) == b && a / b % 2 == 1 then a / b + 1 else a / b

-- The step between the doubles around `n`. At the end of the fuel `n` is 2^2099 or more, which
-- overflows whatever the step.
unfoldable pub step_at : ℕ → ℕ
unfolding spare_bits
step_at n = 2 ^ spare_bits 2046 n

-- The multiple of the least positive double that is the double nearest to `a / b` of them.
unfoldable pub round_quotient : ℕ → ℕ → ℕ
unfolding nearest step_at
round_quotient a b = let step = step_at (a / b) in nearest a (b * step) * step

-- What is 2^1024 or more after rounding is infinite.
unfoldable pub bounded : Bool → ℕ → Float
unfolding unit
bounded negative n = if ltb n (unit * 2 ^ 1024) then finite negative n else infinite negative

-- The double nearest to a fraction.
unfoldable pub from_fraction : Bool → ℕ → ℕ → Float
unfolding bounded unit round_quotient
from_fraction negative a b = bounded negative (round_quotient (a * unit) b)

-- A product with an integer that is a double.
unfoldable pub times : Float → ℕ → Float
unfolding bounded round_quotient
times nan k = nan
times (infinite negative) k = if k == 0 then nan else infinite negative
times (finite negative n) k = bounded negative (round_quotient (n * k) 1)

-- `isNaN(x)`
unfoldable pub is_nan : Float → Bool
is_nan nan = true
is_nan _ = false

-- `x <= 0`
unfoldable pub at_most_zero : Float → Bool
at_most_zero nan = false
at_most_zero (infinite negative) = negative
at_most_zero (finite negative n) = negative || n == 0

-- What `JSON.stringify` makes of `Math.round(x)`: the integer nearest to `x`, of two the greater one.
unfoldable pub rounded_json : Float → Json
unfolding unit
rounded_json nan = Json.null
rounded_json (infinite negative) = Json.null
rounded_json (finite false n) = num (pos ((2 * n + unit) / (2 * unit)))
rounded_json (finite true n) = num (negate ((2 * n + unit - 1) / (2 * unit)))

-- The exponent at the beginning of a text, as what to multiply and divide by.
abbrev powers : Bool → Text → ℕ × ℕ
powers negative ds = if negative then (1, 10 ^ digits_value 0 ds) else (10 ^ digits_value 0 ds, 1)

abbrev exponent_digits : Text → ℕ × ℕ
exponent_digits [] = (1, 1)
exponent_digits (c ∷ s) =
    powers (c == b'-') (take_while is_digit (if c == b'-' || c == b'+' then s else c ∷ s))

abbrev exponent_of : Text → ℕ × ℕ
exponent_of [] = (1, 1)
exponent_of (c ∷ s) = if c == b'e' || c == b'E' then exponent_digits s else (1, 1)

abbrev after_point : Text → Option Text
after_point [] = none
after_point (c ∷ s) = if c == b'.' then some s else none

-- A number with the digits before and after its point, and what follows them.
unfoldable pub decimal_float : Bool → Text → Text → Text → Float
unfolding digits_value from_fraction
decimal_float negative whole fraction rest =
    let (up, down) = exponent_of rest in
    if is_empty (whole ++ fraction)
    then nan
    else from_fraction negative (digits_value 0 (whole ++ fraction) * up)
        (10 ^ length fraction * down)

abbrev pub with_point : Bool → Text → Text → Option Text → Float
with_point negative whole rest none = decimal_float negative whole [] rest
with_point negative whole rest (some s) =
    decimal_float negative whole (take_while is_digit s) (drop_while is_digit s)

unfoldable pub unsigned_float : Bool → Text → Float
unfolding decimal_float take_while drop_while starts_with text
unsigned_float negative s =
    if starts_with s (text "Infinity")
    then infinite negative
    else with_point negative (take_while is_digit s) (drop_while is_digit s)
        (after_point (drop_while is_digit s))

abbrev signed_float : Text → Float
signed_float [] = nan
signed_float (c ∷ s) =
    if c == b'-'
    then unsigned_float true s
    else (if c == b'+' then unsigned_float false s else unsigned_float false (c ∷ s))

-- `parseFloat(s)`: white space in front is skipped, what follows the number is ignored.
unfoldable pub parse_float : Text → Float
unfolding unsigned_float
parse_float s = signed_float (drop_while is_space s)
