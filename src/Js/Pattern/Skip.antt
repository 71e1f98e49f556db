-- ===== src/Js/Pattern/Skip.antt =====
-- Where a pattern cannot match: texts that lack a character of one of its literals, and stretches
-- that a search passes over.
use x402guard.Base.{
  ℕ, ◌≡◌, refl, Bool, true, false, ◌||◌, none, some, List, [], ◌∷◌, ◌++◌, arith, ◌==◌, any,
  Bool-cases, Option-cases, inl, inr, ==_iff, subst, sym, ap, ◌∙◌, if◌then◌else◌,
}
use mathlib.Core.Option.{some-injective}
use x402guard.Js.Text.{Text, is_empty, is_space, is_digit, drop_while, strip_prefix}
use x402guard.Js.Text.Laws.{Each, NoneOf, take_while-append, drop_while-append}
use x402guard.Js.Pattern.{
  word, spaces, blanks, digits, nonspaces, Pattern, is_nonspace, capture, match_here, search_text,
}

-- The pattern has a literal with a character that passes the test.
abbrev pub needs : (ℕ → Bool) → Pattern → Bool
needs q [] = false
needs q (word w ∷ p) = any q w || needs q p
needs q (_ ∷ p) = needs q p

module _ (q : ℕ → Bool) where
  drop_while-NoneOf : (p : ℕ → Bool) (s : Text) → NoneOf q s → NoneOf q (drop_while p s)
  unfolding drop_while
  drop_while-NoneOf p [] h = h
  drop_while-NoneOf p (c ∷ s) h = ground (arith, drop_while-NoneOf p s h.1)

  strip_prefix_lacks : (w s : Text) → NoneOf q s → any q w ≡ true → strip_prefix w s ≡ none
  unfolding strip_prefix
  strip_prefix_lacks [] s h e = cc
  strip_prefix_lacks (c ∷ w) [] h e = refl
  strip_prefix_lacks (c ∷ w) (d ∷ s) h e = elim (Bool-cases (c == d)) [
    | inl same ↦
        let lacks : q c ≡ false = subst (λ x. q x ≡ false) (sym ((==_iff c d).0 same)) h.0 in
        rw same (strip_prefix_lacks w s h.1 (ground arith))
    | inr other ↦ rw other
  ]

  strip_prefix-NoneOf : (w s t : Text) → strip_prefix w s ≡ some t → NoneOf q s → NoneOf q t
  unfolding strip_prefix
  strip_prefix-NoneOf [] s t e h = subst (NoneOf q) (some-injective _ _ e) h
  strip_prefix-NoneOf (c ∷ w) [] t e h = cc
  strip_prefix-NoneOf (c ∷ w) (d ∷ s) t e h = strip_prefix-NoneOf w s t (ground arith) h.1

  match_here_lacks :
      (p : Pattern) (s : Text) → NoneOf q s → needs q p ≡ true → match_here p s ≡ none
  unfolding match_here
  match_here_lacks [] s h e = cc
  match_here_lacks (word w ∷ p) s h e = elim (Option-cases (strip_prefix w s)) [
    | inl missing ↦ rw (missing, match_here)
    | inr (t, found) ↦ elim (Bool-cases (any q w)) [
      | inl here ↦ rw (strip_prefix_lacks w s h here, match_here)
      | inr later ↦
          rw (found, match_here)
            (match_here_lacks p t (strip_prefix-NoneOf w s t found h) (ground arith))
    ]
  ]
  match_here_lacks (spaces ∷ p) s h e =
      ground (arith, match_here_lacks p (drop_while is_space s) (drop_while-NoneOf is_space s h) e)
  match_here_lacks (blanks ∷ p) s h e =
      match_here_lacks p (drop_while is_space s) (drop_while-NoneOf is_space s h) e
  match_here_lacks (digits ∷ p) s h e =
      ground (arith, match_here_lacks p (drop_while is_digit s) (drop_while-NoneOf is_digit s h) e)
  match_here_lacks (nonspaces ∷ p) s h e =
      ground
        (arith, match_here_lacks p (drop_while is_nonspace s) (drop_while-NoneOf is_nonspace s h) e)

  -- A text without such a character holds no match.
  pub search_text_lacks :
      (p : Pattern) (s : Text) → NoneOf q s → needs q p ≡ true → search_text p s ≡ none
  unfolding search_text
  search_text_lacks p [] h e = match_here_lacks p [] h e
  search_text_lacks p (c ∷ s) h e =
      rw (match_here_lacks p (c ∷ s) h e, search_text) (search_text_lacks p s h.1 e)

module _ (p : Pattern) where
  pub search_text-found :
      (s : Text) (m : List Text) → match_here p s ≡ some m → search_text p s ≡ some m
  unfolding search_text
  search_text-found [] m e = e
  search_text-found (c ∷ s) m e = rw (e, search_text)

  search_text-step_digits :
      (c : ℕ) (s : Text)
      → match_here (digits ∷ p) (c ∷ s) ≡ none
      → search_text (digits ∷ p) (c ∷ s) ≡ search_text (digits ∷ p) s
  unfolding search_text
  search_text-step_digits c s e = rw (e, search_text)

  match_here-digits :
      (s : Text) (d : ℕ) (t : Text)
      → Each is_digit s
      → is_digit d ≡ false
      → match_here (digits ∷ p) (s ++ d ∷ t)
        ≡ (if is_empty s then none else capture s (match_here p (d ∷ t)))
  unfolding match_here
  match_here-digits s d t h e =
      rw (take_while-append is_digit s d t h e, drop_while-append is_digit s d t h e)

  -- A search passes over a run of digits where the rest of the pattern fails behind the run.
  pub search_text-digit_run :
      (d : ℕ) (t : Text)
      → is_digit d ≡ false
      → match_here p (d ∷ t) ≡ none
      → (s : Text) → Each is_digit s
      → search_text (digits ∷ p) (s ++ d ∷ t) ≡ search_text (digits ∷ p) (d ∷ t)
  search_text-digit_run d t e miss [] h = refl
  search_text-digit_run d t e miss (c ∷ s) h =
      search_text-step_digits c (s ++ d ∷ t)
        (match_here-digits (c ∷ s) d t h e ∙ ap (capture (c ∷ s)) miss)
      ∙ search_text-digit_run d t e miss s h.1
