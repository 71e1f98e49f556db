-- ===== src/Js/Pattern.antt =====
-- The regular expressions of the SDK: sequences of literals and greedy classes, searched from the
-- left. A class is never followed by a piece that can begin with a character of that class, so a
-- match that gives characters back (backtracking) never succeeds where the greedy one fails.
pub mod Skip
use x402guard.Base.{ℕ, Bool, not, Option, none, some, List, [], ◌∷◌, if◌then◌else◌}
use x402guard.Js.Text.{Text, is_empty, is_space, is_digit, take_while, drop_while, strip_prefix}

pub data Piece : Type 0 where
  -- literal characters
  word : Text → Piece
  -- `\s+`, `\s*`
  spaces blanks : Piece
  -- `(\d+)`, `(\S+)`
  digits nonspaces : Piece

abbrev pub Pattern : Type 0
Pattern = List Piece

abbrev pub is_nonspace : ℕ → Bool
is_nonspace c = not (is_space c)

abbrev pub capture : Text → Option (List Text) → Option (List Text)
capture s none = none
capture s (some found) = some (s ∷ found)

-- The captured groups of a match that begins where the text begins.
unfoldable pub match_here : Pattern → Text → Option (List Text)
match_here [] s = some []
match_here (word w ∷ p) s = elim (strip_prefix w s) [ none ↦ none | some t ↦ match_here p t ]
match_here (spaces ∷ p) s =
    let rest = match_here p (drop_while is_space s) in
    if is_empty (take_while is_space s) then none else rest
match_here (blanks ∷ p) s = match_here p (drop_while is_space s)
match_here (digits ∷ p) s =
    let ds = take_while is_digit s in
    let rest = match_here p (drop_while is_digit s) in if is_empty ds then none else capture ds rest
match_here (nonspaces ∷ p) s =
    let cs = take_while is_nonspace s in
    let rest = match_here p (drop_while is_nonspace s) in
    if is_empty cs then none else capture cs rest

-- `match`: the leftmost match.
unfoldable pub search_text : Pattern → Text → Option (List Text)
unfolding match_here
search_text p [] = match_here p []
search_text p (c ∷ s) = elim (match_here p (c ∷ s)) [
  | some found ↦ some found
  | none ↦ search_text p s
]
