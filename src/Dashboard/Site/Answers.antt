-- ===== src/Dashboard/Site/Answers.antt =====
-- What the site's answers to a wallet that signs in say.
use mathlib.Core.Option.{some-injective}
use x402guard.Base.{ℕ, ◌≡◌, refl, sym, ap, ◌∙◌, Bool, true, Option, some, none}
use x402guard.Js.Text.{Text, text, text_eq}
use x402guard.Js.Number.{ℤ}
use x402guard.Js.Json.{fields_of, Json, str, get_field}
use x402guard.Sdk.Errors.{Result, ok, throw, property}
use x402guard.Dashboard.Agent.Values.{is_truthy, optional_field}
use x402guard.Dashboard.Login.{Calls, Answer, refused, too_many, session}
use x402guard.Dashboard.Login.Nonce.{nonce_or_wait, nonce_cookie}
use x402guard.Dashboard.Login.Safety.{is_session}
use x402guard.Dashboard.SignIn.{is_ok}
use x402guard.Dashboard.SignIn.Parts.{Sends}
use x402guard.Dashboard.Site.{nonce_response, verify_response, cookie_after, kept_nonce}

-- The property of the body of a response.
sent_property :
    (k : Text) (v body : Json) (o : Option Json)
    → some v ≡ some body
    → property k body ≡ ok o
    → property k v ≡ ok o
sent_property k v body o e g = ap (property k) (some-injective _ _ e) ∙ g

no_token :
    (o : Option Json)
    → ◌≡◌ {A = Result (Option Json)} (ok none) (ok o)
    → is_truthy (optional_field (text "access_token") o) ≡ true
    → ⊥
unfolding is_truthy optional_field
no_token none e h = cc
no_token (some v) e h = cc

module _ (production : Bool) (generate : Calls → Text) (waited : ℕ) (is_secure : Bool)
    (old : Option Text) where
  -- Where the response has a nonce, the limiter let the request pass, and the cookie of the site has the
  -- nonce as long as the browser keeps it.
  pub nonce_sent :
      (out : Option ℤ × Calls) (o : Option Json)
      → Sends (nonce_response (nonce_or_wait production generate out).0) o
      → (out ≡ (none, out.1))
        × (o ≡ some (str (generate out.1)))
        × (kept_nonce waited is_secure old (nonce_or_wait production generate out).0
            ≡ cookie_after waited is_secure (nonce_cookie production (generate out.1)))
        × ((nonce_or_wait production generate out).1 ≡ out.1)
  unfolding nonce_response kept_nonce property get_field text text_eq fields_of
  nonce_sent (some seconds, t) o (body, good, e, g) = cc
  nonce_sent (none, t) o (body, good, e, g) =
      (refl, ap got (sym (sent_property (text "nonce") _ body o e g)), refl, refl)
    where
      got : Result (Option Json) → Option Json
      got (ok o) = o
      got (throw _) = none

-- An answer with a session that has a token is one with a session.
pub session_sent :
    (a : Answer) (body : Json) (o : Option Json)
    → is_ok (verify_response a).status ≡ true
    → (verify_response a).body ≡ some body
    → property (text "session") body ≡ ok o
    → is_truthy (optional_field (text "access_token") o) ≡ true
    → is_session (ok a) ≡ true
unfolding verify_response property get_field text text_eq fields_of is_truthy optional_field
session_sent (refused status m) body o good e g h =
    absurd (no_token o (sent_property (text "session") _ body o e g) h)
session_sent (too_many wait) body o good e g h = cc
session_sent (session v) body o good e g h = refl
