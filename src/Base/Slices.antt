-- ===== src/Base/Slices.antt =====
-- Lemmas on parts of lists: slices, and what passes a test.
use x402guard.Base.{
  Bool-cases, inl, inr, ℕ, zero, suc, ◌<◌, ◌≤◌, ◌≡◌, refl, ap, Bool, true, false, ◌&&◌, ltb, All,
  List, [], ◌∷◌, ◌++◌, length, take, keep, drop_last, arith,
}

module _ {ℓ} {A : Type ℓ} where
  pub keep-keep : (p q : A → Bool) (xs : List A) → keep (λ x. p x && q x) xs ≡ keep q (keep p xs)
  unfolding keep
  keep-keep p q [] = refl
  keep-keep p q (x ∷ xs) = ground (arith, keep-keep p q xs)

  pub keep_same : (p q : A → Bool) (xs : List A) → ((x : A) → p x ≡ q x) → keep p xs ≡ keep q xs
  unfolding keep
  keep_same p q [] h = refl
  keep_same p q (x ∷ xs) h = ground (arith, keep_same p q xs h, h x)

  pub keep_every : (p : A → Bool) (xs : List A) → All (λ x. p x ≡ true) xs → keep p xs ≡ xs
  unfolding keep
  keep_every p [] h = refl
  keep_every p (x ∷ xs) (e, h) = rw (e, keep_every p xs h)

  pub keep_none : (p : A → Bool) (xs : List A) → All (λ x. p x ≡ false) xs → keep p xs ≡ []
  unfolding keep
  keep_none p [] h = refl
  keep_none p (x ∷ xs) (e, h) = rw (e, keep_none p xs h)

  pub keep-append : (p : A → Bool) (xs ys : List A) → keep p (xs ++ ys) ≡ keep p xs ++ keep p ys
  unfolding keep
  keep-append p [] ys = refl
  keep-append p (x ∷ xs) ys = ground (arith, keep-append p xs ys)

  pub All-kept : (p : A → Bool) (xs : List A) → All (λ x. p x ≡ true) (keep p xs)
  unfolding keep
  All-kept p [] = tt
  All-kept p (x ∷ xs) = elim (Bool-cases (p x)) [
    | inl kept ↦ rw kept (kept, All-kept p xs)
    | inr dropped ↦ rw dropped (All-kept p xs)
  ]

  -- The last of one item too many is dropped.
  pub drop_last-take :
      (n : ℕ) (xs : List A) → n < length xs → drop_last (take (suc n) xs) ≡ take n xs
  unfolding take drop_last
  drop_last-take n [] h = ground arith
  drop_last-take zero (x ∷ xs) h = refl
  drop_last-take (suc n) (x ∷ []) h = ground arith
  drop_last-take (suc n) (x ∷ y ∷ xs) h = ap (λ t. x ∷ t) (drop_last-take n (y ∷ xs) (omega arith))

  pub take_all : (n : ℕ) (xs : List A) → length xs ≤ n → take n xs ≡ xs
  unfolding take
  take_all zero [] h = refl
  take_all (suc n) [] h = refl
  take_all zero (x ∷ xs) h = ground arith
  take_all (suc n) (x ∷ xs) h = ap (λ t. x ∷ t) (take_all n xs (omega arith))

  pub length-take_more :
      (n : ℕ) (xs : List A) → ltb n (length (take (suc n) xs)) ≡ ltb n (length xs)
  unfolding take
  length-take_more n [] = refl
  length-take_more zero (x ∷ xs) = ground arith
  length-take_more (suc n) (x ∷ xs) = ground (arith, length-take_more n xs)

module _ {ℓ κ} {A : Type ℓ} (P : A → Type κ) where
  pub All-middle : (xs ys : List A) (y : A) → All P (xs ++ y ∷ ys) → P y
  All-middle [] ys y (h, _) = h
  All-middle (x ∷ xs) ys y (_, h) = All-middle xs ys y h

  pub All-map : {Q : A → Type κ} (f : (x : A) → P x → Q x) (xs : List A) → All P xs → All Q xs
  All-map f [] h = tt
  All-map f (x ∷ xs) (p, h) = (f x p, All-map f xs h)

  pub All-keep : (p : A → Bool) (xs : List A) → All P xs → All P (keep p xs)
  unfolding keep
  All-keep p [] h = tt
  All-keep p (x ∷ xs) (h, k) = elim (Bool-cases (p x)) [
    | inl kept ↦ rw kept (h, All-keep p xs k)
    | inr dropped ↦ rw dropped (All-keep p xs k)
  ]
