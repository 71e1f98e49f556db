-- ===== src/Js/Url/Laws.antt =====
-- What `encodeURIComponent` makes of an id is one segment that stays, unless the id is a dot or two.
use x402guard.Base.{
  ◌+◌, ℕ, ◌/◌, ◌%◌, ◌<◌, ◌≡◌, refl, sym, ◌∙◌, Bool, true, false, ◌&&◌, inl, inr, [], ◌∷◌, ◌++◌, map,
  arith, ltb, ◌==◌, Bool-cases, All,
}
use x402guard.Js.Text.{Text, text, text_eq, lower_ascii}
use x402guard.Js.Uri.{is_unreserved, hex_digit, percent, percent_utf8, encode_uri_component}
use x402guard.Js.Url.{is_single_dot, is_double_dot}

-- The digits `2e`.
abbrev is_2e : ℕ → ℕ → Bool
is_2e h l = lower_ascii h == b'2' && lower_ascii l == b'e'

hex_not_2e :
    (b : ℕ)
    → (b % 256 == 0x2e) ≡ false
    → is_2e (hex_digit (b / 16 % 16)) (hex_digit (b % 16)) ≡ false
unfolding hex_digit lower_ascii
hex_not_2e b h = ground arith

-- What an escaped character begins with.
abbrev Escapes : Text → Type 0
Escapes s = (h : ℕ) × (l : ℕ) × (r : Text) × (s ≡ b'%' ∷ h ∷ l ∷ r) × (is_2e h l ≡ false)

percent-Escapes : (b : ℕ) (s : Text) → (b % 256 == 0x2e) ≡ false → Escapes (percent b ++ s)
unfolding percent
percent-Escapes b s h = (_, _, s, refl, hex_not_2e b h)

percent_utf8-Escapes :
    (c : ℕ) (s : Text) → c < 0x110000 → is_unreserved c ≡ false → Escapes (percent_utf8 c ++ s)
unfolding percent_utf8 percent is_unreserved
percent_utf8-Escapes c s small h = elim (Bool-cases (ltb c 0x80)) [
  | inl one ↦ rw one (percent-Escapes c s (ground arith))
  | inr more ↦ rw more (elim (Bool-cases (ltb c 0x800)) [
    | inl two ↦ rw two (percent-Escapes (0xc0 + c / 64) _ (ground arith))
    | inr more' ↦ rw more' (elim (Bool-cases (ltb c 0x10000)) [
      | inl three ↦ rw three (percent-Escapes (0xe0 + c / 4096) _ (ground arith))
      | inr four ↦ rw four (percent-Escapes (0xf0 + c / 262144) _ (ground arith))
    ])
  ])
]

abbrev NoDots : Text → Type 0
NoDots s = (is_single_dot s ≡ false) × (is_double_dot s ≡ false)

-- Behind a dot: neither the end, nor another dot that is the last.
abbrev NoRest : Text → Type 0
NoRest s =
    (text_eq (map lower_ascii s) [] ≡ false)
    × (text_eq (map lower_ascii s) (text ".") ≡ false)
    × (text_eq (map lower_ascii s) (text "%2e") ≡ false)

Escapes-NoDots : (s : Text) → Escapes s → NoDots s
unfolding is_single_dot is_double_dot text_eq lower_ascii text
Escapes-NoDots s (h, l, r, e, other) = rw e (ground arith, ground arith)

Escapes-NoRest : (s : Text) → Escapes s → NoRest s
unfolding text_eq lower_ascii text
Escapes-NoRest s (h, l, r, e, other) = rw e (refl, refl, ground arith)

encode_filled :
    (c : ℕ) (s : Text)
    → c < 0x110000
    → text_eq (map lower_ascii (encode_uri_component (c ∷ s))) [] ≡ false
unfolding encode_uri_component text_eq
encode_filled c s small = elim (Bool-cases (is_unreserved c)) [
  | inl plain ↦ rw plain refl
  | inr escaped ↦ rw escaped (
      let (h, l, r, e, other) = percent_utf8-Escapes c (encode_uri_component s) small escaped in
      rw e refl)
]

abbrev pub IsPoint : ℕ → Type 0
IsPoint c = c < 0x110000

encode-empty :
    (s : Text)
    → All IsPoint s
    → text_eq (map lower_ascii (encode_uri_component s)) [] ≡ text_eq s []
unfolding text_eq encode_uri_component
encode-empty [] points = refl
encode-empty (c ∷ s) (small, points) = encode_filled c s small

-- Only a dot is read as one.
lower_dot : (c : ℕ) → (lower_ascii c == b'.') ≡ (c == b'.')
unfolding lower_ascii
lower_dot c = ground arith

no_percent : (c : ℕ) → is_unreserved c ≡ true → (lower_ascii c == b'%') ≡ false
unfolding lower_ascii is_unreserved
no_percent c h = ground arith

-- Behind a dot, where the whole is neither one dot nor two.
rest-NoRest :
    (s : Text)
    → All IsPoint s
    → text_eq s [] ≡ false
    → text_eq s (text ".") ≡ false
    → NoRest (encode_uri_component s)
unfolding encode_uri_component text_eq text
rest-NoRest [] points filled other = cc
rest-NoRest (c ∷ s) (small, points) filled other = elim (Bool-cases (is_unreserved c)) [
  | inl plain ↦ rw plain (
    refl,
    (λ i. lower_dot c i && encode-empty s points i) ∙ other,
    (λ i. no_percent c plain i && text_eq (map lower_ascii (encode_uri_component s)) (text "2e")),
  )
  | inr escaped ↦
      rw escaped (Escapes-NoRest _ (percent_utf8-Escapes c (encode_uri_component s) small escaped))
]

-- An id other than one dot or two is encoded as a segment that is not removed.
pub encode-NoDots :
    (id : Text)
    → All IsPoint id
    → text_eq id (text ".") ≡ false
    → text_eq id (text "..") ≡ false
    → NoDots (encode_uri_component id)
unfolding encode_uri_component text_eq text is_single_dot is_double_dot
encode-NoDots [] points single double = (refl, refl)
encode-NoDots (c ∷ s) (small, points) single double = elim (Bool-cases (is_unreserved c)) [
  | inl plain ↦ rw plain (elim (Bool-cases (c == b'.')) [
    | inl dot ↦
        let (empty, one, escaped) =
          rest-NoRest s points ((λ i. sym dot i && text_eq s []) ∙ single)
            ((λ i. sym dot i && text_eq s (text ".")) ∙ double) in
        rw (lower_dot c, dot, no_percent c plain, empty, one, escaped) (refl, refl)
    | inr other ↦ rw (lower_dot c, other, no_percent c plain) (refl, refl)
  ])
  | inr escaped ↦
      rw escaped (Escapes-NoDots _ (percent_utf8-Escapes c (encode_uri_component s) small escaped))
]
