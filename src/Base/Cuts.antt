-- ===== src/Base/Cuts.antt =====
-- Lemmas on lists that are cut in two.
use x402guard.Base.{
  ℕ, zero, suc, ◌+◌, ◌≤◌, ◌<◌, ◌≡◌, refl, ap, some, List, [], ◌∷◌, ◌++◌, length, take, drop, last,
  arith,
}

module _ {ℓ} {A : Type ℓ} where
  -- A page that is not the last one, cut at its last item.
  pub cut_page :
      (n : ℕ) (xs : List A)
      → n < length xs
      → 0 < n
      → (x : A) × (before : List A) × (last (take n xs) ≡ some x) × (xs ≡ before ++ x ∷ drop n xs)
  unfolding take drop last
  cut_page zero xs h p = elim p [ ]
  cut_page (suc n) [] h p = elim h [ ]
  cut_page (suc zero) (x ∷ xs) h p = (x, [], refl, refl)
  cut_page (suc (suc n)) (x ∷ []) h p = elim (bad n h) [ ]
    where
      bad : (m : ℕ) → suc (suc m) < 1 → ⊥
      bad m k = omega arith
  cut_page (suc (suc n)) (x ∷ y ∷ xs) h p =
      let (z, before, e, g) = cut_page (suc n) (y ∷ xs) (omega arith) (omega arith) in
      (z, x ∷ before, e, ap (λ l. x ∷ l) g)

  pub last-snoc : (xs : List A) (x : A) → last (xs ++ x ∷ []) ≡ some x
  unfolding last
  last-snoc [] x = refl
  last-snoc (y ∷ []) x = refl
  last-snoc (y ∷ z ∷ xs) x = last-snoc (z ∷ xs) x

  pub take-append_drop : (n : ℕ) (xs : List A) → take n xs ++ drop n xs ≡ xs
  unfolding take drop
  take-append_drop zero xs = refl
  take-append_drop (suc n) [] = refl
  take-append_drop (suc n) (x ∷ xs) = ap (λ l. x ∷ l) (take-append_drop n xs)

  pub length-drop : (n : ℕ) (xs : List A) → n ≤ length xs → length (drop n xs) + n ≡ length xs
  unfolding drop
  length-drop zero xs h = omega arith
  length-drop (suc n) [] h = elim h [ ]
  length-drop (suc n) (x ∷ xs) h = omega (arith, length-drop n xs (omega arith))
