-- ===== src/Dashboard/Actions/Forms/Keys.antt =====
-- What a session key that the dashboard creates must have.
use x402guard.Base.{
  ◌≡◌, refl, ◌∙◌, sym, ap, Bool, true, false, Option, some, none, [], get_or, if◌then◌else◌,
}
use x402guard.Js.Text.{Text, text, is_empty}
use x402guard.Js.Number.{ℤ}
use x402guard.Js.Float.{Float, parse_float}
use x402guard.Sdk.Errors.{Result, ok, throw}
use x402guard.Sdk.Io.{Io, Trace, ◌>>=◌, ◌>>◌}
use x402guard.Adapters.Openclaw.{present}
use x402guard.Dashboard.Session.{
  Server, User, skips_auth, dev_user, user_or_redirect, verify_session,
}
use x402guard.Dashboard.Ownership.{is_uuid, assert_agent_ownership}
use x402guard.Dashboard.Actions.{ActionResult, complain, if_owner}
use x402guard.Dashboard.Actions.Laws.{is_success}
use x402guard.Dashboard.Actions.Forms.{
  new_key, iso_or_throw, trim_option, with_expiry, Form, Checked, invalid, Dates, Key, no_amount,
  at_most, is_past, key_of, check_key, check_expiry, key_body, send_built, post_key,
  create_session_key,
}

-- What succeeds after the checks of an action succeeded right after the check of the ownership.
module _ (server : Server) (id : Text) (next : Io ActionResult) (t : Trace) where
  abbrev checked_at : Trace
  checked_at = (assert_agent_ownership server id t).1

  abbrev Passed : Trace → Type 0
  Passed u = is_success (next u).0 ≡ true

  owner-Passed :
      (out : Result (Option Text) × Trace)
      → is_success
          (((λ _. out) >>= λ c. elim c [ some message ↦ complain message | none ↦ next ]) []).0
        ≡ true
      → Passed out.1
  owner-Passed (throw e, u) h = cc
  owner-Passed (ok (some m), u) h = cc
  owner-Passed (ok none, u) h = h

  uuid-Passed :
      (b : Bool)
      → is_success ((if b then if_owner server id next else complain (text "Invalid agent ID")) t).0
        ≡ true
      → Passed checked_at
  uuid-Passed false h = cc
  uuid-Passed true h = owner-Passed (assert_agent_ownership server id t) h

  abbrev body : Io ActionResult
  body = if is_uuid id then if_owner server id next else complain (text "Invalid agent ID")

  session-Passed :
      (b : Bool) (u : Option User)
      → is_success (((λ v. if b then (ok dev_user, v) else user_or_redirect u v) >> body) t).0
        ≡ true
      → Passed checked_at
  session-Passed true u h = uuid-Passed (is_uuid id) h
  session-Passed false none h = cc
  session-Passed false (some user) h = uuid-Passed (is_uuid id) h

  action-Passed : is_success ((verify_session server >> body) t).0 ≡ true → Passed checked_at
  unfolding verify_session
  action-Passed h = session-Passed (skips_auth server) (server.get_user t) h

-- A form for a key with a spend above zero and an expiry after the time of the trace.
pub record IsSound (dates : Dates) (form : Form) (t : Trace) : Type 0 where
  pub key : Text
  pub given : present (trim_option (form (text "public_key"))) ≡ some key
  pub named : is_empty key ≡ false
  pub spend : no_amount (parse_float (get_or (form (text "max_spend")) [])) ≡ false
  pub date : Text
  pub dated : present (form (text "expires_at")) ≡ some date
  pub ms : ℤ
  pub parsed : dates.parse_date date ≡ some ms
  pub future : at_most ms (dates.now t) ≡ false

present-filled : (o : Option Text) (s : Text) → present o ≡ some s → is_empty s ≡ false
present-filled none s e = cc
present-filled (some t) s e = filled (is_empty t) refl e
  where
    filled :
        (b : Bool) → is_empty t ≡ b → (if b then none else some t) ≡ some s → is_empty s ≡ false
    filled true empty g = cc
    filled false full g = cc

module _ (server : Server) (dates : Dates) (id : Text) (form : Form) (u : Trace) where
  abbrev Creates : Checked Key → Type 0
  Creates c = is_success (post_key server id dates c u).0 ≡ true

  passes_check :
      (b : Bool) (m : Text) (c : Checked Key)
      → Creates (if b then invalid m else c)
      → (b ≡ false) × Creates c
  passes_check true m c h = cc
  passes_check false m c h = (refl, h)

  has_date :
      (key : Key) (e : Option ℤ)
      → is_success
          (send_built server id (text "/session-keys") (with_expiry key (iso_or_throw dates e)) u).0
        ≡ true
      → (ms : ℤ) × (e ≡ some ms)
  unfolding send_built
  has_date key none h = cc
  has_date key (some ms) h = (ms, refl)

  has_expiry :
      (key : Text) (spend : Float) (o : Option Text)
      → Creates (check_expiry dates u form key spend o)
      → (s : Text) × (ms : ℤ) × (o ≡ some s)
        × (dates.parse_date s ≡ some ms)
        × (at_most ms (dates.now u) ≡ false)
  unfolding key_body
  has_expiry key spend none h = cc
  has_expiry key spend (some s) h =
      let (ahead, sent) =
        passes_check (is_past (dates.parse_date s) (dates.now u))
          (text "Expiration must be in the future") _ h in
      let (ms, e) =
        has_date (new_key form key spend (dates.parse_date s)) (dates.parse_date s) sent in
      (s, ms, refl, e, ap (λ o. is_past o (dates.now u)) (sym e) ∙ ahead)

  key-IsSound :
      (o : Option Text)
      → present (trim_option (form (text "public_key"))) ≡ o
      → Creates (check_key dates u form o)
      → IsSound dates form u
  key-IsSound none given h = cc
  key-IsSound (some key) given h =
      let (spend, more) =
        passes_check (no_amount (parse_float (get_or (form (text "max_spend")) [])))
          (text "Max spend must be a positive number") _ h in
      let (date, ms, dated, parsed, future) =
        has_expiry key _ (present (form (text "expires_at"))) more in
      record {
        key = key;
        given = given;
        named = present-filled (trim_option (form (text "public_key"))) key given;
        spend = spend;
        date = date;
        dated = dated;
        ms = ms;
        parsed = parsed;
        future = future;
      }

-- Whatever the network and the session do: where the creation of a session key reports success, the
-- form has a public key that is not blank, a spend that is a number above zero and an expiry that is a
-- date, and that date was in the future when the ownership of the agent had just been checked.
pub create_session_key-IsSound :
    (server : Server) (dates : Dates) (id : Text) (form : Form) (t : Trace)
    → is_success (create_session_key server dates id form t).0 ≡ true
    → IsSound dates form (assert_agent_ownership server id t).1
unfolding create_session_key key_of
create_session_key-IsSound server dates id form t h =
    key-IsSound server dates id form (assert_agent_ownership server id t).1
      (present (trim_option (form (text "public_key")))) refl
      (action-Passed server id (λ v. post_key server id dates (key_of dates form v) v) t h)
