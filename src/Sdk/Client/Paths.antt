-- ===== src/Sdk/Client/Paths.antt =====
-- The paths that the client requests, cut at their slashes, and what the parser of URLs keeps of them.
use x402guard.Base.{false, List, All, refl}
use x402guard.Js.Text.{text_eq, lower_ascii}
use x402guard.Js.Text.Laws.{Each}
use x402guard.Js.Uri.Laws.{is_segment_char, encode_uri_component_lem}
use x402guard.Js.Url.{is_single_dot, is_double_dot, read_segments}
use x402guard.Js.Url.Laws.{IsPoint, encode-NoDots}
use x402guard.Base.{◌∙◌, ◌≡◌, ap, [], ◌∷◌, ◌++◌}
use x402guard.Js.Text.{Text, text, split}
use x402guard.Js.Text.Laws.{split-append, split_single}
use x402guard.Js.Uri.{encode_uri_component}
use x402guard.Js.Uri.Laws.{encode-NoneOf_slash}
use x402guard.Sdk.Client.{agent_path, session_key_path}

-- The path of an agent has three parts, the last of them the encoded id, whatever the id is.
pub split-agent_path :
    (id : Text) → split b'/' (agent_path id) ≡ [] ∷ text "agents" ∷ encode_uri_component id ∷ []
unfolding agent_path split text
split-agent_path id =
    ap (λ r. [] ∷ text "agents" ∷ r)
      (split_single b'/' (encode_uri_component id) (encode-NoneOf_slash id))

-- What stands behind the id starts a part of its own.
pub split-agent_path_append :
    (id tail : Text)
    → split b'/' (agent_path id ++ b'/' ∷ tail)
      ≡ [] ∷ text "agents" ∷ encode_uri_component id ∷ split b'/' tail
unfolding agent_path split text
split-agent_path_append id tail =
    ap (λ r. [] ∷ text "agents" ∷ r)
      (split-append b'/' (encode_uri_component id) tail (encode-NoneOf_slash id))

-- The path of a session key, before it is read as a URL.
split-session_key_path :
    (id key : Text)
    → split b'/' (session_key_path id key)
      ≡ []
        ∷ text "agents"
        ∷ encode_uri_component id
        ∷ text "session-keys"
        ∷ encode_uri_component key
        ∷ []
unfolding session_key_path split text
split-session_key_path id key =
    split-agent_path_append id (text "session-keys/" ++ encode_uri_component key)
    ∙ ap (λ r. [] ∷ text "agents" ∷ encode_uri_component id ∷ text "session-keys" ∷ r)
        (split_single b'/' (encode_uri_component key) (encode-NoneOf_slash key))

-- A segment that is no dot is kept.
keep_segment :
    (path : List Text) (s : Text) (more : List Text)
    → (is_single_dot s ≡ false) × (is_double_dot s ≡ false)
    → read_segments path (s ∷ more) ≡ read_segments (s ∷ path) more
unfolding read_segments
keep_segment path s more (single, double) = rw (double, single) refl

-- An id that the parser of URLs does not take for the same directory or for the one above.
abbrev pub IsId : Text → Type 0
IsId id = All IsPoint id × (text_eq id (text ".") ≡ false) × (text_eq id (text "..") ≡ false)

-- Whatever other characters two ids of code points hold (slashes, question marks, escapes), unless one of
-- them is just `.` or `..`: what the parser of URLs keeps of the path of a session key, behind any base, is
-- the route with the encoded ids in their places, and these hold no character that would end the path.
pub session_key_path_stays :
    (base : List Text) (id key : Text)
    → IsId id
    → IsId key
    → (parts : List Text) × (split b'/' (session_key_path id key) ≡ [] ∷ parts)
      × (read_segments base parts
          ≡ encode_uri_component key
            ∷ text "session-keys"
            ∷ encode_uri_component id
            ∷ text "agents"
            ∷ base)
      × Each is_segment_char (encode_uri_component id)
      × Each is_segment_char (encode_uri_component key)
unfolding text is_single_dot is_double_dot text_eq lower_ascii read_segments
session_key_path_stays base id key (id_points, id_single, id_double)
      (key_points, key_single, key_double) =
    let agents = text "agents" in
    let keys = text "session-keys" in
    let last_part = encode_uri_component key ∷ [] in
    let path = encode_uri_component id ∷ agents ∷ base in
    (
      agents ∷ encode_uri_component id ∷ keys ∷ last_part,
      split-session_key_path id key,
      keep_segment base agents (encode_uri_component id ∷ keys ∷ last_part) (refl, refl)
          ∙ (keep_segment (agents ∷ base) (encode_uri_component id) (keys ∷ last_part)
                (encode-NoDots id id_points id_single id_double)
              ∙ (keep_segment path keys last_part (refl, refl)
                  ∙ keep_segment (keys ∷ path) (encode_uri_component key) []
                      (encode-NoDots key key_points key_single key_double))),
      encode_uri_component_lem id,
      encode_uri_component_lem key,
    )
