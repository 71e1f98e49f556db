-- ===== src/Js/Float/Order.antt =====
-- Rounding to doubles keeps the order.
use native.Mathlib.Omega.{div_any}
use native.Mathlib.Nat.{
  pow-suc, one-le-pow, le-div_iff_mul-le, div-lt_iff_lt-mul, mul_comm, mul_assoc, mul-pos,
  mul-le-mul_right,
}
use x402guard.Base.{
  ℕ, zero, suc, ◌+◌, ◌*◌, ◌/◌, ◌%◌, ◌^◌, ◌≤◌, ◌<◌, ◌≡◌, refl, ◌∙◌, ap, subst, ◌⊎◌, inl, inr, Bool,
  false, Bool-cases, ltb, ltb→lt, ◌==◌, ◌&&◌, ◌||◌, arith, if◌then◌else◌,
}
use x402guard.Js.Number.{spare_bits}
use x402guard.Js.Float.{nearest, step_at, round_quotient}
use x402guard.Js.Float.Laws.{spare_bits_step, step_at-pos}

div_keeps_order : (a c b : ℕ) → 0 < b → a ≤ c → a / b ≤ c / b
div_keeps_order a c b pos_b h =
    let below : a / b * b ≤ a = (le-div_iff_mul-le pos_b).0 (omega arith) in
    (le-div_iff_mul-le pos_b).1 (omega arith)

nearest-lower : (a b k : ℕ) → 0 < b → k * b ≤ a → k ≤ nearest a b
unfolding nearest
nearest-lower a b k pos_b h = let q : k ≤ a / b = (le-div_iff_mul-le pos_b).1 h in ground arith

nearest-upper : (a b k : ℕ) → 0 < b → a < k * b → nearest a b ≤ k
unfolding nearest
nearest-upper a b k pos_b h = let q : a / b < k = (div-lt_iff_lt-mul pos_b).1 h in ground arith

-- With the same quotient, the greater remainder is rounded up where the smaller one is.
digits_order :
    (b q r t : ℕ) (odd : Bool)
    → r ≤ t
    → (if ltb b (2 * r) || 2 * r == b && odd then q + 1 else q)
      ≤ (if ltb b (2 * t) || 2 * t == b && odd then q + 1 else q)
digits_order b q r t odd h = ground arith

nearest_order : (a c b : ℕ) → 0 < b → a ≤ c → nearest a b ≤ nearest c b
unfolding nearest
nearest_order a c b pos_b h = elim (Bool-cases (ltb (a / b) (c / b))) [
  | inl less ↦
      let below = nearest-upper a b (c / b) pos_b ((div-lt_iff_lt-mul pos_b).0 (ltb→lt _ _ less)) in
      let above = nearest-lower c b (c / b) pos_b ((le-div_iff_mul-le pos_b).0 (omega arith)) in
      omega (arith, below, above)
  | inr same ↦
      let e : c / b ≡ a / b = omega (arith, div_keeps_order a c b pos_b h, not_less same) in
      let rest : a % b ≤ c % b = omega (arith, div_any a b, div_any c b, ap (λ q. b * q) e) in
      rw e (digits_order b (a / b) (a % b) (c % b) (a / b % 2 == 1) rest)
]
  where
    not_less : {m n : ℕ} → ltb m n ≡ false → n ≤ m
    not_less h = ground arith

-- The bits to spare of two numbers: as many, or the numbers are on two sides of a power of two.
Apart : ℕ → ℕ → ℕ → ℕ → Type 0
Apart n m j k = (n < 2 ^ j * 2 ^ 53) × (2 ^ j * 2 ^ 53 ≤ 2 ^ k * 2 ^ 52) × (2 ^ k * 2 ^ 52 ≤ m)

spare_bits_order :
    (fuel n m : ℕ)
    → n ≤ m
    → (spare_bits fuel n ≡ spare_bits fuel m) ⊎ Apart n m (spare_bits fuel n) (spare_bits fuel m)
unfolding spare_bits Apart
spare_bits_order zero n m h = inl refl
spare_bits_order (suc fuel) n m h = elim (Bool-cases (ltb n (2 ^ 53))) [
  | inl small ↦ elim (Bool-cases (ltb m (2 ^ 53))) [
    | inl small_too ↦ rw (small, small_too) (inl refl)
    | inr large ↦
        let step = spare_bits_step fuel (m / 2) (ground arith) in
        let one = one-le-pow (spare_bits fuel (m / 2)) 2 (omega arith) in
        let twice = pow-suc 2 (spare_bits fuel (m / 2)) in
        let small' : n < 2 ^ 53 = ground arith in
        rw (small, large) (inr (omega arith, omega (arith, one, twice), omega (arith, step, twice)))
  ]
  | inr large ↦
      let large' : 2 ^ 53 ≤ n = ground arith in
      let large_too : ltb m (2 ^ 53) ≡ false = ground arith in
      elim (spare_bits_order fuel (n / 2) (m / 2) (omega arith)) [
        | inl same ↦ rw (large, large_too) (inl (ap suc same))
        | inr (below, between, above) ↦
            let twice = pow-suc 2 (spare_bits fuel (n / 2)) in
            let twice' = pow-suc 2 (spare_bits fuel (m / 2)) in
            rw (large, large_too)
              (inr (
                omega (arith, below, twice),
                omega (arith, between, twice, twice'),
                omega (arith, above, twice'),
              ))
      ]
]

swap_last : (s k b : ℕ) → s * k * b ≡ k * (b * s)
swap_last s k b =
    ap (λ n. n * b) (mul_comm s k) ∙ (mul_assoc k s b ∙ ap (λ n. k * n) (mul_comm s b))

-- Numbers that are rounded to steps of the same size, or on two sides of a power of two.
round_steps :
    (a c b s t : ℕ)
    → 0 < b
    → 0 < s
    → 0 < t
    → a ≤ c
    → (s ≡ t) ⊎ ((a / b < s * 2 ^ 53) × (s * 2 ^ 53 ≤ t * 2 ^ 52) × (t * 2 ^ 52 ≤ c / b))
    → nearest a (b * s) * s ≤ nearest c (b * t) * t
round_steps a c b s t pos_b pos_s pos_t h (inl same) =
    subst (λ u. nearest a (b * s) * s ≤ nearest c (b * u) * u) same
      (mul-le-mul_right s (nearest_order a c (b * s) (mul-pos pos_b pos_s) h))
round_steps a c b s t pos_b pos_s pos_t h (inr (below, between, above)) =
    let a_below : a < s * 2 ^ 53 * b = (div-lt_iff_lt-mul pos_b).0 below in
    let c_above : t * 2 ^ 52 * b ≤ c = (le-div_iff_mul-le pos_b).0 above in
    let up : nearest a (b * s) ≤ 2 ^ 53 =
      nearest-upper a (b * s) (2 ^ 53) (mul-pos pos_b pos_s)
        (omega (arith, a_below, swap_last s (2 ^ 53) b)) in
    let down : 2 ^ 52 ≤ nearest c (b * t) =
      nearest-lower c (b * t) (2 ^ 52) (mul-pos pos_b pos_t)
        (omega (arith, c_above, swap_last t (2 ^ 52) b)) in
    omega (arith, mul-le-mul_right s up, mul-le-mul_right t down, between)

pub round_quotient_order : (a c b : ℕ) → 0 < b → a ≤ c → round_quotient a b ≤ round_quotient c b
unfolding round_quotient step_at Apart
round_quotient_order a c b pos_b h =
    round_steps a c b (step_at (a / b)) (step_at (c / b)) pos_b (step_at-pos (a / b))
      (step_at-pos (c / b)) h
      (elim (spare_bits_order 2046 (a / b) (c / b) (div_keeps_order a c b pos_b h)) [
        | inl same ↦ inl (ap (λ k. 2 ^ k) same)
        | inr apart ↦ inr apart
      ])
