-- ===== src/Js/Url.antt =====
-- How the parser of URLs, which `fetch` uses, reads the path behind a host.
pub mod Laws
use x402guard.Base.{◌||◌, Bool, List, [], ◌∷◌, map, if◌then◌else◌}
use x402guard.Js.Text.{Text, text, text_eq, lower_ascii}

-- A segment that stands for the same directory, or for the one above; a dot may be escaped.
unfoldable pub is_single_dot : Text → Bool
unfolding text_eq lower_ascii
is_single_dot s = let l = map lower_ascii s in text_eq l (text ".") || text_eq l (text "%2e")

unfoldable pub is_double_dot : Text → Bool
unfolding text_eq lower_ascii
is_double_dot s =
    let l = map lower_ascii s in
    text_eq l (text "..")
    || text_eq l (text ".%2e")
    || text_eq l (text "%2e.")
    || text_eq l (text "%2e%2e")

abbrev pub shorten : List Text → List Text
shorten [] = []
shorten (_ ∷ r) = r

abbrev pub ended : List Text → List Text → List Text
ended [] path = [] ∷ path
ended (_ ∷ _) path = path

-- The segments of the path, the last one first, after some more; at the end a dot leaves an empty segment.
unfoldable pub read_segments : List Text → List Text → List Text
unfolding is_single_dot is_double_dot
read_segments path [] = path
read_segments path (s ∷ more) =
    if is_double_dot s
    then read_segments (ended more (shorten path)) more
    else (if is_single_dot s
        then read_segments (ended more path) more
        else read_segments (s ∷ path) more)
