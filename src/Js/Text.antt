-- ===== src/Js/Text.antt =====
-- Strings as lists of code points (a lone surrogate is not represented), and the string methods
-- that the TypeScript code calls.
pub mod Laws
use Prim.Native.Char.{code}
use Prim.Native.String
use x402guard.Base.{
  ℕ, ◌+◌, String, Bool, true, false, not, ◌&&◌, ◌||◌, Option, none, some, List, [], ◌∷◌, leb, ltb,
  ◌==◌, if◌then◌else◌,
}

abbrev pub Text : Type 0
Text = List ℕ

-- A string literal.
unfoldable pub text : String → Text
text String.[] = []
text (String.◌∷◌ c s) = code c ∷ text s

-- `===` on strings.
unfoldable pub text_eq : Text → Text → Bool
text_eq [] [] = true
text_eq [] (_ ∷ _) = false
text_eq (_ ∷ _) [] = false
text_eq (c ∷ s) (d ∷ t) = c == d && text_eq s t

-- A string is falsy when it is empty.
abbrev pub is_empty : Text → Bool
is_empty [] = true
is_empty (_ ∷ _) = false

-- WhiteSpace and LineTerminator of the language: what `\s` matches and `trim` removes.
unfoldable pub is_space : ℕ → Bool
is_space c =
    leb 9 c && leb c 13
    || c == 32
    || c == 160
    || c == 0x1680
    || leb 0x2000 c && leb c 0x200a
    || c == 0x2028
    || c == 0x2029
    || c == 0x202f
    || c == 0x205f
    || c == 0x3000
    || c == 0xfeff

-- What `\d` matches.
unfoldable pub is_digit : ℕ → Bool
is_digit c = leb b'0' c && leb c b'9'

-- Lower case of an ASCII letter; other characters are left alone.
unfoldable pub lower_ascii : ℕ → ℕ
lower_ascii c = if leb b'A' c && leb c b'Z' then c + 32 else c

unfoldable pub take_while : (ℕ → Bool) → Text → Text
take_while p [] = []
take_while p (c ∷ s) = if p c then c ∷ take_while p s else []

unfoldable pub drop_while : (ℕ → Bool) → Text → Text
drop_while p [] = []
drop_while p (c ∷ s) = if p c then drop_while p s else c ∷ s

-- The text without the longest ending whose characters all pass.
unfoldable pub drop_end : (ℕ → Bool) → Text → Text
drop_end p [] = []
drop_end p (c ∷ s) = let rest = drop_end p s in if p c && is_empty rest then [] else c ∷ rest

-- `trim`
unfoldable pub trim : Text → Text
unfolding drop_end drop_while
trim s = drop_end is_space (drop_while is_space s)

-- What follows the given beginning, if the text has it.
unfoldable pub strip_prefix : Text → Text → Option Text
strip_prefix [] s = some s
strip_prefix (c ∷ w) [] = none
strip_prefix (c ∷ w) (d ∷ s) = if c == d then strip_prefix w s else none

abbrev pub is_some {ℓ} : {A : Type ℓ} → Option A → Bool
is_some none = false
is_some (some _) = true

-- `startsWith`
unfoldable pub starts_with : Text → Text → Bool
unfolding strip_prefix
starts_with s w = is_some (strip_prefix w s)

-- `includes`
unfoldable pub includes : Text → Text → Bool
unfolding starts_with
includes [] w = is_empty w
includes (c ∷ s) w = starts_with (c ∷ s) w || includes s w

-- The part before the first separator, which is item 0 of `split(separator)`.
unfoldable pub split_head : ℕ → Text → Text
unfolding take_while
split_head sep s = take_while (λ c. not (c == sep)) s

abbrev pub cons_head : ℕ → List Text → List Text
cons_head c [] = (c ∷ []) ∷ []
cons_head c (part ∷ parts) = (c ∷ part) ∷ parts

-- `split(separator)` at a separator of one character.
unfoldable pub split : ℕ → Text → List Text
split sep [] = [] ∷ []
split sep (c ∷ s) = let parts = split sep s in if c == sep then [] ∷ parts else cons_head c parts
