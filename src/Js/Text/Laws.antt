-- ===== src/Js/Text/Laws.antt =====
-- Equality of texts, prefixes, and the characters that a loop over a text skips.
use x402guard.Base.{
  Bool-cases, inl, inr, ◌&&◌, ◌==◌, any, ℕ, ◌≡◌, refl, ◌↔◌, Bool, true, false, some, [], ◌∷◌, ◌++◌,
  arith, ap, subst, All,
}
use x402guard.Js.Text.{
  is_empty, split, Text, text_eq, take_while, drop_while, drop_end, strip_prefix, starts_with,
  is_some, includes,
}

text_eq_sound : (s t : Text) → text_eq s t ≡ true → s ≡ t
unfolding text_eq
text_eq_sound [] [] h = refl
text_eq_sound [] (_ ∷ _) h = cc
text_eq_sound (_ ∷ _) [] h = cc
text_eq_sound (c ∷ s) (d ∷ t) h = ground (arith, text_eq_sound s t)

text_eq_refl : (s : Text) → text_eq s s ≡ true
unfolding text_eq
text_eq_refl [] = refl
text_eq_refl (c ∷ s) = ground (arith, text_eq_refl s)

pub text_eq_iff : (s t : Text) → (text_eq s t ≡ true) ↔ (s ≡ t)
text_eq_iff s t = (text_eq_sound s t, λ e. subst (λ u. text_eq s u ≡ true) e (text_eq_refl s))

-- Every character passes the test.
abbrev pub Each : (ℕ → Bool) → Text → Type 0
Each p = All (λ c. p c ≡ true)

-- No character passes the test.
abbrev pub NoneOf : (ℕ → Bool) → Text → Type 0
NoneOf p = All (λ c. p c ≡ false)

module _ (p : ℕ → Bool) where
  pub take_while-append :
      (s : Text) (d : ℕ) (t : Text) → Each p s → p d ≡ false → take_while p (s ++ d ∷ t) ≡ s
  unfolding take_while
  take_while-append [] d t h k = ground arith
  take_while-append (c ∷ s) d t (q, h) k = ground (arith, take_while-append s d t h k)

  pub drop_while-append :
      (s : Text) (d : ℕ) (t : Text) → Each p s → p d ≡ false → drop_while p (s ++ d ∷ t) ≡ d ∷ t
  unfolding drop_while
  drop_while-append [] d t h k = ground arith
  drop_while-append (c ∷ s) d t (q, h) k = ground (arith, drop_while-append s d t h k)

  pub take_while_all : (s : Text) → Each p s → take_while p s ≡ s
  unfolding take_while
  take_while_all [] h = refl
  take_while_all (c ∷ s) (q, h) = ground (arith, take_while_all s h)

  pub drop_while_all : (s : Text) → Each p s → drop_while p s ≡ []
  unfolding drop_while
  drop_while_all [] h = refl
  drop_while_all (c ∷ s) (q, h) = ground (arith, drop_while_all s h)

pub strip_prefix-append : (w s : Text) → strip_prefix w (w ++ s) ≡ some s
unfolding strip_prefix
strip_prefix-append [] s = refl
strip_prefix-append (c ∷ w) s = ground (arith, strip_prefix-append w s)

pub strip_prefix_sound : (w s t : Text) → strip_prefix w s ≡ some t → s ≡ w ++ t
unfolding strip_prefix
strip_prefix_sound [] s t h = ground arith
strip_prefix_sound (c ∷ w) [] t h = cc
strip_prefix_sound (c ∷ w) (d ∷ s) t h = ground (arith, strip_prefix_sound w s t)

starts_with-append : (w s : Text) → starts_with (w ++ s) w ≡ true
unfolding starts_with
starts_with-append w s = ap is_some (strip_prefix-append w s)

pub includes-append : (before w after : Text) → includes (before ++ (w ++ after)) w ≡ true
unfolding includes
includes-append [] [] [] = refl
includes-append [] [] (c ∷ after) = ground (arith, starts_with-append [] (c ∷ after))
includes-append [] (c ∷ w) after = ground (arith, starts_with-append (c ∷ w) after)
includes-append (c ∷ before) w after = ground (arith, includes-append before w after)

-- The text without its trailing characters of one kind ends in another kind, or is empty.
pub drop_end_lem :
    (p : ℕ → Bool) (s : Text) (c : ℕ) → p c ≡ false → drop_end p (s ++ c ∷ []) ≡ s ++ c ∷ []
unfolding drop_end
drop_end_lem p [] c h = ground arith
drop_end_lem p (d ∷ []) c h = ground (arith, drop_end_lem p [] c h)
drop_end_lem p (d ∷ e ∷ s) c h = ground (arith, drop_end_lem p (e ∷ s) c h)

pub NoneOf-of_any : (q : ℕ → Bool) (s : Text) → any q s ≡ false → NoneOf q s
NoneOf-of_any q [] h = tt
NoneOf-of_any q (c ∷ s) h = ground (arith, NoneOf-of_any q s)

pub NoneOf-of_Each :
    (p q : ℕ → Bool) → ((c : ℕ) → p c ≡ true → q c ≡ false) → (s : Text) → Each p s → NoneOf q s
NoneOf-of_Each p q f [] h = tt
NoneOf-of_Each p q f (c ∷ s) (k, h) = (f c k, NoneOf-of_Each p q f s h)

module _ (sep : ℕ) where
  pub split-append :
      (a b : Text) → NoneOf (λ c. c == sep) a → split sep (a ++ sep ∷ b) ≡ a ∷ split sep b
  unfolding split
  split-append [] b h = ground arith
  split-append (c ∷ a) b h = ground (arith, split-append a b h.1)

  pub split_single : (a : Text) → NoneOf (λ c. c == sep) a → split sep a ≡ a ∷ []
  unfolding split
  split_single [] h = refl
  split_single (c ∷ a) h = ground (arith, split_single a h.1)

drop_end-cons_empty :
    (p : ℕ → Bool) (c : ℕ) (r : Text)
    → (p c && is_empty r) ≡ false
    → drop_end p r ≡ r
    → drop_end p (c ∷ r) ≡ c ∷ r
unfolding drop_end
drop_end-cons_empty p c r h e = rw (e, h)

-- A second pass removes nothing more.
pub drop_end-drop_end : (p : ℕ → Bool) (s : Text) → drop_end p (drop_end p s) ≡ drop_end p s
unfolding drop_end
drop_end-drop_end p [] = refl
drop_end-drop_end p (c ∷ s) = elim (Bool-cases (p c && is_empty (drop_end p s))) [
  | inl gone ↦ rw gone refl
  | inr kept ↦ rw kept (drop_end-cons_empty p c (drop_end p s) kept (drop_end-drop_end p s))
]
