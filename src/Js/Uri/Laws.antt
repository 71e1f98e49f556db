-- ===== src/Js/Uri/Laws.antt =====
-- What `encodeURIComponent` makes is one segment of a path, whatever it is given.
use x402guard.Base.{
  ℕ, ◌/◌, ◌%◌, ◌<◌, ◌≡◌, refl, Bool, true, false, ◌||◌, inl, inr, [], ◌∷◌, ◌++◌, arith, ltb, ◌==◌,
  Bool-cases, All-append,
}
use x402guard.Js.Text.{Text}
use x402guard.Js.Text.Laws.{Each, NoneOf, NoneOf-of_Each}
use x402guard.Js.Uri.{is_unreserved, hex_digit, percent, percent_utf8, encode_uri_component}

-- An unreserved character or the sign of an escape.
abbrev pub is_segment_char : ℕ → Bool
is_segment_char c = is_unreserved c || c == b'%'

hex_digit_lem : (d : ℕ) → d < 16 → is_segment_char (hex_digit d) ≡ true
unfolding hex_digit is_unreserved
hex_digit_lem d h = ground arith

percent_lem : (b : ℕ) → Each is_segment_char (percent b)
unfolding percent is_unreserved
percent_lem b =
    (refl, (hex_digit_lem (b / 16 % 16) (omega arith), (hex_digit_lem (b % 16) (omega arith), tt)))

percent_append : (b : ℕ) (s : Text) → Each is_segment_char s → Each is_segment_char (percent b ++ s)
percent_append b s h = All-append _ (percent b) s (percent_lem b) h

percent_utf8_lem : (c : ℕ) → Each is_segment_char (percent_utf8 c)
unfolding percent_utf8
percent_utf8_lem c = elim (Bool-cases (ltb c 0x80)) [
  | inl one ↦ rw one (percent_lem c)
  | inr more ↦ rw more (elim (Bool-cases (ltb c 0x800)) [
    | inl two ↦ rw two (percent_append _ _ (percent_lem _))
    | inr more' ↦ rw more' (elim (Bool-cases (ltb c 0x10000)) [
      | inl three ↦ rw three (percent_append _ _ (percent_append _ _ (percent_lem _)))
      | inr four ↦
          rw four (percent_append _ _ (percent_append _ _ (percent_append _ _ (percent_lem _))))
    ])
  ])
]

-- Nothing but unreserved characters and `%` remains: no slash, no `?`, no `#`, no space.
pub encode_uri_component_lem : (s : Text) → Each is_segment_char (encode_uri_component s)
unfolding encode_uri_component
encode_uri_component_lem [] = tt
encode_uri_component_lem (c ∷ s) = elim (Bool-cases (is_unreserved c)) [
  | inl plain ↦ rw plain (ground arith, encode_uri_component_lem s)
  | inr escaped ↦ rw escaped (
      All-append _ (percent_utf8 c) (encode_uri_component s) (percent_utf8_lem c)
        (encode_uri_component_lem s))
]

segment_char_no_slash : (c : ℕ) → is_segment_char c ≡ true → (c == b'/') ≡ false
unfolding is_unreserved
segment_char_no_slash c h = ground arith

pub encode-NoneOf_slash : (s : Text) → NoneOf (λ c. c == b'/') (encode_uri_component s)
encode-NoneOf_slash s =
    NoneOf-of_Each is_segment_char (λ c. c == b'/') segment_char_no_slash (encode_uri_component s)
      (encode_uri_component_lem s)
