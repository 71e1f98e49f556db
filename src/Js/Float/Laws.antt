-- ===== src/Js/Float/Laws.antt =====
-- How far the rounding of a double goes, and that amounts in millionths survive it.
use native.Mathlib.Omega.{div_any}
use native.Mathlib.Nat.{
  mod-lt, add-mul, pow-suc, one-le-pow, le-div_iff_mul-le, div-lt_iff_lt-mul, mul_comm, mul_assoc,
  mul-pos, mul_left_comm, mul_right_comm, mul-one, mul-zero, zero-mul, one-mul, mul-le-mul_left,
  mul-le-mul_right,
}
use x402guard.Base.{
  ℕ, zero, suc, ◌+◌, ◌*◌, ◌/◌, ◌%◌, ◌^◌, ◌≤◌, ◌<◌, ◌≡◌, refl, ◌∙◌, sym, ap, subst, inl, inr, Bool,
  false, Bool-cases, ltb, lt→ltb, ◌==◌, ◌&&◌, ◌||◌, arith, if◌then◌else◌,
}
use x402guard.Js.Number.{spare_bits}
use x402guard.Js.Float.{
  at_most_zero, is_nan, pos, num, rounded_json, finite, unit, nearest, step_at, round_quotient,
  bounded, from_fraction, times,
}

-- `n` lies around `a`, at a distance of half of `step` at most.
abbrev IsNear : ℕ → ℕ → ℕ → Type 0
IsNear step a n = (2 * n ≤ 2 * a + step) × (2 * a ≤ 2 * n + step)

IsNear-of_digits :
    (a b q r : ℕ) (tie : Bool)
    → b * q + r ≡ a
    → r < b
    → IsNear b a ((if ltb b (2 * r) || 2 * r == b && tie then q + 1 else q) * b)
IsNear-of_digits a b q r tie e h = elim (Bool-cases (ltb b (2 * r) || 2 * r == b && tie)) [
  | inl up ↦
      let far : b ≤ 2 * r = ground arith in
      rw up (omega (arith, mul_comm b q, add-mul q 1 b), omega (arith, mul_comm b q, add-mul q 1 b))
  | inr down ↦
      let close : 2 * r ≤ b = ground arith in
      rw down (omega (arith, mul_comm b q), omega (arith, mul_comm b q))
]

nearest-IsNear : (a b : ℕ) → 0 < b → IsNear b a (nearest a b * b)
unfolding nearest
nearest-IsNear a b pos_b =
    IsNear-of_digits a b (a / b) (a % b) (a / b % 2 == 1) (div_any a b) (mod-lt a pos_b)

pub spare_bits_step : (fuel n : ℕ) → 2 ^ 52 ≤ n → 2 ^ spare_bits fuel n * 2 ^ 52 ≤ n
unfolding spare_bits
spare_bits_step zero n h = omega arith
spare_bits_step (suc fuel) n h = elim (Bool-cases (ltb n (2 ^ 53))) [
  | inl small ↦ rw small (omega arith)
  | inr large ↦ rw large (
      omega
        (arith, spare_bits_step fuel (n / 2) (ground arith), pow-suc 2 (spare_bits fuel (n / 2))))
]

pub step_at-pos : (n : ℕ) → 0 < step_at n
unfolding step_at
step_at-pos n = one-le-pow (spare_bits 2046 n) 2 (omega arith)

swap_last : (s b : ℕ) → s * 2 ^ 52 * b ≡ b * s * 2 ^ 52
swap_last s b = mul_comm (s * 2 ^ 52) b ∙ sym (mul_assoc b s (2 ^ 52))

-- A product with the step of a quotient that is not small.
step_small : (a b : ℕ) → 0 < b → 2 ^ 52 * b ≤ a → b * step_at (a / b) * 2 ^ 52 ≤ a
unfolding step_at
step_small a b pos_b h =
    let bits = spare_bits 2046 (a / b) in
    let small = spare_bits_step 2046 (a / b) ((le-div_iff_mul-le pos_b).1 h) in
    subst (λ n. n ≤ a) (swap_last (2 ^ bits) b) ((le-div_iff_mul-le pos_b).0 small)

-- The quotient of `a` by `b` is rounded to a double that is off by 2^-53 of it at most.
abbrev IsClose : ℕ → ℕ → Type 0
IsClose a n = (2 ^ 53 * n ≤ 2 ^ 53 * a + a) × (2 ^ 53 * a ≤ 2 ^ 53 * n + a)

IsClose-of_near : (a step n : ℕ) → IsNear step a n → step * 2 ^ 52 ≤ a → IsClose a n
IsClose-of_near a step n (below, above) small = (omega arith, omega arith)

round_quotient-IsClose : (a b : ℕ) → 0 < b → 2 ^ 52 * b ≤ a → IsClose a (round_quotient a b * b)
unfolding round_quotient
round_quotient-IsClose a b pos_b h =
    let step = step_at (a / b) in
    subst (IsClose a)
      (ap (λ n. nearest a (b * step) * n) (mul_comm b step)
        ∙ sym (mul_assoc (nearest a (b * step)) step b))
      (IsClose-of_near a (b * step) (nearest a (b * step) * (b * step))
        (nearest-IsNear a (b * step) (mul-pos pos_b (step_at-pos (a / b))))
        (step_small a b pos_b h))

IsClose-scaled : (a n s : ℕ) → IsClose a n → IsClose (a * s) (n * s)
IsClose-scaled a n s (below, above) =
    let low = mul-le-mul_right s below in
    let high = mul-le-mul_right s above in
    (
      omega (arith, low, mul_assoc (2 ^ 53) n s, add-mul (2 ^ 53 * a) a s, mul_assoc (2 ^ 53) a s),
      omega (arith, high, mul_assoc (2 ^ 53) a s, add-mul (2 ^ 53 * n) a s, mul_assoc (2 ^ 53) n s),
    )

two_roundings :
    (a c r u : ℕ)
    → 0 < u
    → a ≤ 2 ^ 50 * u
    → IsClose a c
    → IsClose c r
    → (2 * r < 2 * a + u) × (2 * a < 2 * r + u)
two_roundings a c r u pos_u small (b1, a1) (b2, a2) = (omega arith, omega arith)

rounds_to :
    (p u r : ℕ)
    → 0 < u
    → (2 * r < 2 * (p * u) + u) × (2 * (p * u) < 2 * r + u)
    → (2 * r + u) / (2 * u) ≡ p
rounds_to p u r pos_u (below, above) =
    let two_pos : 0 < 2 * u = omega arith in
    let low : p ≤ (2 * r + u) / (2 * u) =
      (le-div_iff_mul-le two_pos).1 (omega (arith, mul_left_comm p 2 u)) in
    let high : (2 * r + u) / (2 * u) < p + 1 =
      (div-lt_iff_lt-mul two_pos).1 (omega (arith, mul_left_comm p 2 u, add-mul p 1 (2 * u))) in
    omega arith

-- A double below 2^1024.
bounded-finite : (n : ℕ) → n < unit * 2 ^ 1024 → bounded false n ≡ finite false n
unfolding bounded
bounded-finite n h = rw (lt→ltb n (unit * 2 ^ 1024) h) refl

unit_large : 2 ^ 80 ≤ unit
unfolding unit
unit_large = omega arith

pos_of_factor : (b s : ℕ) → b * s ≡ 1000000 → (0 < b) × (0 < s)
pos_of_factor zero s e = (omega (arith, zero-mul s), omega (arith, zero-mul s))
pos_of_factor (suc b) zero e = omega (arith, mul-zero (suc b))
pos_of_factor (suc b) (suc s) e = (omega arith, omega arith)

-- A fraction of whole millionths, times a million.
module _ (n b s : ℕ) (whole : b * s ≡ 1000000) (some_n : 0 < n) (small : n * s ≤ 2 ^ 50) where
  abbrev parsed : ℕ
  parsed = round_quotient (n * unit) b

  abbrev product : ℕ
  product = round_quotient (parsed * 1000000) 1

  pos_b : 0 < b
  pos_b = (pos_of_factor b s whole).0

  parsed-IsClose : IsClose (n * unit) (parsed * b)
  parsed-IsClose = round_quotient-IsClose (n * unit) b pos_b (
      omega (
        arith,
        mul-le-mul_left b (pos_of_factor b s whole).1,
        mul-one b,
        unit_large,
        mul-le-mul_right unit some_n,
        one-mul unit,
      ))

  scaled-IsClose : IsClose (n * s * unit) (parsed * 1000000)
  scaled-IsClose =
      subst (IsClose (n * s * unit)) (mul_assoc parsed b s ∙ ap (λ m. parsed * m) whole) (
        subst (λ a. IsClose a (parsed * b * s)) (mul_right_comm n unit s)
          (IsClose-scaled (n * unit) (parsed * b) s parsed-IsClose))

  total_large : 2 ^ 80 ≤ n * s * unit
  total_large = omega (
    arith,
    unit_large,
    mul-le-mul_right unit (mul-pos some_n (pos_of_factor b s whole).1),
    one-mul unit,
  )

  total_small : n * s * unit ≤ 2 ^ 50 * unit
  total_small = mul-le-mul_right unit small

  product-IsClose : IsClose (parsed * 1000000) product
  product-IsClose =
      let (_, above) = scaled-IsClose in
      subst (IsClose (parsed * 1000000)) (mul-one product) (
        round_quotient-IsClose (parsed * 1000000) 1 (omega arith)
          (omega (arith, total_large, above)))

  parsed_bounded : parsed < unit * 2 ^ 1024
  parsed_bounded = let (below, _) = scaled-IsClose in omega (arith, below, total_small, unit_large)

  product_bounded : product < unit * 2 ^ 1024
  product_bounded =
      let (below, _) = scaled-IsClose in
      let (b2, _) = product-IsClose in omega (arith, below, b2, total_small, unit_large)

  pub rounded_json-times :
      rounded_json (times (from_fraction false n b) 1000000) ≡ num (pos (n * s))
  unfolding rounded_json times from_fraction
  rounded_json-times =
      ap (λ x. rounded_json (times x 1000000)) (bounded-finite parsed parsed_bounded)
      ∙ (ap rounded_json (bounded-finite product product_bounded)
          ∙ ap (λ k. num (pos k))
              (rounds_to (n * s) unit product (omega (arith, unit_large)) (
                two_roundings (n * s * unit) (parsed * 1000000) product unit
                  (omega (arith, unit_large)) total_small scaled-IsClose product-IsClose)))

  -- Its double is above zero.
  pub from_fraction-positive :
      (is_nan (from_fraction false n b) || at_most_zero (from_fraction false n b)) ≡ false
  unfolding is_nan at_most_zero from_fraction
  from_fraction-positive =
      ap (λ x. is_nan x || at_most_zero x) (bounded-finite parsed parsed_bounded)
      ∙ (let (_, above) = scaled-IsClose in not_zero parsed (omega (arith, above, total_large)))
    where
      not_zero : (k : ℕ) → 0 < k → (k == 0) ≡ false
      not_zero k h = ground arith
