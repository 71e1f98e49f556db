-- ===== src/Js/Uri.antt =====
-- `encodeURIComponent`, and what its results are made of.
pub mod Laws
use x402guard.Base.{
  ℕ, ◌+◌, ◌-◌, ◌/◌, ◌%◌, ◌<◌, ◌≡◌, refl, Bool, true, false, not, ◌&&◌, ◌||◌, inl, inr, [], ◌∷◌,
  ◌++◌, arith, leb, ltb, ◌==◌, if◌then◌else◌, Bool-cases, All-append,
}
use x402guard.Js.Text.{Text}

-- The characters that are left as they are.
unfoldable pub is_unreserved : ℕ → Bool
is_unreserved c =
    leb b'A' c && leb c b'Z'
    || leb b'a' c && leb c b'z'
    || leb b'0' c && leb c b'9'
    || c == b'-'
    || c == b'_'
    || c == b'.'
    || c == b'!'
    || c == b'~'
    || c == b'*'
    || c == b'\''
    || c == b'('
    || c == b')'

unfoldable pub hex_digit : ℕ → ℕ
hex_digit d = if ltb d 10 then b'0' + d else b'A' + d - 10

-- `%XX` for a byte.
unfoldable pub percent : ℕ → Text
percent b = b'%' ∷ hex_digit (b / 16 % 16) ∷ hex_digit (b % 16) ∷ []

-- The UTF-8 bytes of a code point, each as `%XX`.
unfoldable pub percent_utf8 : ℕ → Text
percent_utf8 c =
    if ltb c 0x80
    then percent c
    else if ltb c 0x800
    then percent (0xc0 + c / 64) ++ percent (0x80 + c % 64)
    else if ltb c 0x10000
    then percent (0xe0 + c / 4096) ++ (percent (0x80 + c / 64 % 64) ++ percent (0x80 + c % 64))
    else percent (0xf0 + c / 262144)
      ++ (percent (0x80 + c / 4096 % 64)
          ++ (percent (0x80 + c / 64 % 64) ++ percent (0x80 + c % 64)))

unfoldable pub encode_uri_component : Text → Text
encode_uri_component [] = []
encode_uri_component (c ∷ s) =
    let rest = encode_uri_component s in
    if is_unreserved c then c ∷ rest else percent_utf8 c ++ rest
