-- ===== src/Dashboard/Actions/Buttons.antt =====
-- What the visitor sees of an action: the handlers of RevokeAllButton.tsx, RuleActions.tsx and
-- KeyActions.tsx, and the dialogs CreateRuleDialog.tsx and CreateKeyDialog.tsx of
-- dashboard/src/components/dashboard.
use x402guard.Base.{
  length, ltb, ◌||◌, suc, ◌≡◌, ◌⊎◌, Bool, not, true, false, Option, some, none, List, [], ◌∷◌, ◌++◌,
}
use x402guard.Js.Text.{Text, text}
use x402guard.Js.Json.{Json, to_text}
use x402guard.Sdk.Errors.{Result, ok, throw}
use x402guard.Sdk.Io.{Io, Trace, pure, ◌>>=◌}
use x402guard.Dashboard.Session.{Server}
use x402guard.Dashboard.Ownership.{is_uuid}
use x402guard.Dashboard.Ownership.Laws.{MayAct, mutations}
use x402guard.Dashboard.Actions.{
  ActionResult, success, revoked, failed, delete_guardrail_rule, revoke_key,
  revoke_all_session_keys,
}
use x402guard.Dashboard.Actions.Forms.{Form, Dates, create_guardrail_rule, create_session_key}

-- A message of the library sonner: a success with its text, or an error.
pub data Toast : Type 0 where
  praise : Text → Toast
  complaint : Json → Toast

abbrev pub toast_of : Text → ActionResult → Toast
toast_of message (failed e) = complaint e
toast_of message _ = praise message

-- `String(count)` of the revoked keys.
abbrev pub count_text : Option Json → Text
count_text none = text "undefined"
count_text (some v) = to_text v

abbrev pub revoked_text : Text → Text
revoked_text count =
    text "All session keys revoked (" ++ (count ++ text " keys). Agent deactivated.")

abbrev pub revoked_toast : ActionResult → Toast
revoked_toast (failed e) = complaint e
revoked_toast success = praise (revoked_text (text "0"))
revoked_toast (revoked count) = praise (revoked_text (count_text count))

-- A dialog with a form: whether it is open, the type that is selected, what the action answered last,
-- and the toasts, the newest first.
pub record Dialog : Type 0 where
  pub is_open : Bool
  pub selected_type : Text
  pub state : Option ActionResult
  pub toasts : List Text

-- The effect of a dialog when the action has answered.
abbrev pub settled : Text → ActionResult → Dialog → Dialog
settled message (failed e) d = record d { state = some (failed e) }
settled message r d = record {
  is_open = false;
  selected_type = [];
  state = some r;
  toasts = message ∷ d.toasts;
}

module _ (server : Server) where
  -- `handleDelete` of RuleActions
  unfoldable pub handle_delete : Text → Text → Io Toast
  unfolding delete_guardrail_rule
  handle_delete id rule =
      delete_guardrail_rule server id rule >>= λ r. pure (toast_of (text "Rule deleted") r)

  -- `handleRevoke` of KeyActions
  unfoldable pub handle_revoke : Text → Text → Io Toast
  unfolding revoke_key
  handle_revoke id key =
      revoke_key server id key >>= λ r. pure (toast_of (text "Session key revoked") r)

  -- `handleRevoke` of RevokeAllButton
  unfoldable pub handle_revoke_all : Text → Text → Io Toast
  unfolding revoke_all_session_keys
  handle_revoke_all id owner =
      revoke_all_session_keys server id owner >>= λ r. pure (revoked_toast r)

  -- CreateRuleDialog: the form is submitted, and the effect runs.
  unfoldable pub submit_rule : Text → Form → Dialog → Io Dialog
  unfolding create_guardrail_rule
  submit_rule id form d = create_guardrail_rule server id form >>= λ r.
      pure (settled (text "Guardrail rule created") r d)

  -- CreateKeyDialog, in which no type is selected.
  unfoldable pub submit_key : Dates → Text → Form → Dialog → Io Dialog
  unfolding create_session_key
  submit_key dates id form d = create_session_key server dates id form >>= λ r.
      pure (settled (text "Session key created") r d)

abbrev pub is_praise : Toast → Bool
is_praise (praise _) = true
is_praise (complaint _) = false

-- A dialog that says that the action went well: it is closed, or there are more toasts than before.
abbrev pub went_well : Dialog → Dialog → Bool
went_well before d = not d.is_open || ltb (length before.toasts) (length d.toasts)

-- What is shown says that the action went well, where `good` reads it, only if it did: the agent's id
-- is a UUID, the user may act on it, and one request that changes something was sent. Otherwise nothing
-- was changed.
abbrev pub Honest {ℓ} :
    {A : Type ℓ} → (A → Bool) → Server → Text → Trace → Result A × Trace → Type 0
Honest good server id t (r, t') =
    (((elim r [ ok a ↦ good a | throw _ ↦ false ]) ≡ false) × (mutations t' ≡ mutations t))
    ⊎ ((is_uuid id ≡ true) × MayAct server id t × (mutations t' ≡ suc (mutations t)))
