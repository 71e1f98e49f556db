-- ===== src/Dashboard/Chat.antt =====
-- dashboard/src/app/agent/content.tsx: the page where a visitor talks to the AI agent.
pub mod Steps
pub mod Full
pub mod Labels
mod Tests
use x402guard.Base.{
  ℕ, Bool, true, false, not, ◌||◌, ◌&&◌, Option, some, none, List, [], ◌∷◌, ◌++◌, map, keep, get_or,
  drop, if◌then◌else◌,
}
use mathlib.Core.List.{reverse}
use x402guard.Js.Text.{Text, text, text_eq, is_empty, trim, includes, starts_with}

-- A part of a message: its type, and what is read of it.
pub record Part : Type 0 where
  pub kind : Text
  pub body : Text
  pub tool_name : Option Text
  pub state : Option Text

-- `UIMessage`
pub record Message : Type 0 where
  pub role : Text
  pub parts : Option (List Part)

abbrev concat : List Text → Text
concat [] = []
concat (s ∷ r) = s ++ concat r

-- `getMessageText`
unfoldable pub get_message_text : Message → Text
unfolding keep trim text_eq
get_message_text m =
    trim (concat (map (λ q. q.body) (keep (λ q. text_eq q.kind (text "text")) (get_or m.parts []))))

-- An entry of `TOOL_LABELS`.
pub record Label : Type 0 where
  pub icon : Text
  pub loading : Text
  pub finished : Text

abbrev label : Text → Text → Text → Label
label icon loading finished = record { icon = icon; loading = loading; finished = finished }

abbrev tool_labels : List (Text × Label)
tool_labels =
    (
      text "check_proxy_health",
      label (text "🔍") (text "Checking proxy health...") (text "Proxy health checked"),
    )
    ∷ (text "list_agents", label (text "📋") (text "Listing agents...") (text "Agents loaded"))
    ∷ (
      text "get_guardrail_rules",
      label (text "🛡" ++ 0xfe0f ∷ []) (text "Loading guardrail rules...")
          (text "Guardrail rules loaded"),
    )
    ∷ (
      text "get_session_keys",
      label (text "🔑") (text "Loading session keys...") (text "Session keys loaded"),
    )
    ∷ (
      text "get_spend_summary",
      label (text "💰") (text "Calculating spend...") (text "Spend calculated"),
    )
    ∷ (
      text "simulate_payment",
      label (text "💳") (text "Simulating payment...") (text "Payment simulated"),
    )
    ∷ (
      text "get_audit_log",
      label (text "📜") (text "Querying audit log...") (text "Audit log loaded"),
    )
    ∷ []

abbrev find_label : Text → List (Text × Label) → Option Label
find_label name [] = none
find_label name ((k, l) ∷ r) = if text_eq k name then some l else find_label name r

-- `TOOL_LABELS[name]`
unfoldable pub label_of : Text → Option Label
unfolding text_eq
label_of name = find_label name tool_labels

abbrev pub is_done : Text → Bool
is_done state =
    text_eq state (text "output-available")
    || text_eq state (text "output-error")
    || text_eq state (text "output-denied")

abbrev pub indicator_with : Option Label → Text → Bool → Text
indicator_with (some l) name done = l.icon ++ b' ' ∷ (if done then l.finished else l.loading)
indicator_with none name done =
    (text "⚙" ++ 0xfe0f ∷ b' ' ∷ [])
    ++ (if done then name ++ text " done" else text "Running " ++ (name ++ text "..."))

-- The text of `ToolCallIndicator`.
unfoldable pub indicator_text : Text → Text → Text
unfolding label_of text_eq
indicator_text name state = indicator_with (label_of name) name (is_done state)

-- What is rendered of a message.
pub data Shown : Type 0 where
  bubble : Text → Text → Shown
  tool_call : Text → Text → Shown

-- The name of the tool of a part: `part.type.slice(5)`, or the field of a dynamic tool.
unfoldable pub tool_of : Part → Text
unfolding text_eq drop
tool_of q =
    if text_eq q.kind (text "dynamic-tool")
    then get_or q.tool_name (text "unknown")
    else drop 5 q.kind

unfoldable pub render_part : Part → Option Shown
unfolding trim tool_of starts_with text_eq
render_part q =
    if text_eq q.kind (text "text") && not (is_empty (trim q.body))
    then some (bubble (text "assistant") q.body)
    else (if starts_with q.kind (text "tool-") || text_eq q.kind (text "dynamic-tool")
        then some (tool_call (tool_of q) (get_or q.state (text "input-available")))
        else none)

abbrev pub rendered : List Part → List Shown
rendered [] = []
rendered (q ∷ r) = elim (render_part q) [ none ↦ rendered r | some v ↦ v ∷ rendered r ]

-- `renderMessage`
unfoldable pub render_message : Message → List Shown
unfolding render_part get_message_text text_eq
render_message m =
    if text_eq m.role (text "user")
    then bubble (text "user") (get_message_text m) ∷ []
    else (if text_eq m.role (text "assistant") then rendered (get_or m.parts []) else [])

-- `ErrorBanner`: its title and its explanation.
unfoldable pub error_banner : Text → Text × Text
unfolding includes
error_banner message =
    let is_429 = includes message (text "429") || includes message (text "Too many") in
    if is_429
    then (text "Rate limit reached", text "Too many requests. Please wait a moment and try again.")
    else (text "Something went wrong", message)

-- The status of `useChat`.
pub data Status : Type 0 where
  ready submitted streaming errored : Status

-- The state of the page with that of `useChat`; `sent` holds the conversations that were sent to the
-- API, the newest first.
pub record Chat : Type 0 where
  pub messages : List Message
  pub status : Status
  pub error_shown : Option Text
  pub input : Text
  pub has_started : Bool
  pub sent : List (List Message)

-- `isLoading`
abbrev pub is_loading : Status → Bool
is_loading submitted = true
is_loading streaming = true
is_loading _ = false

abbrev last_user : List Message → Option Message
last_user [] = none
last_user (m ∷ r) = if text_eq m.role (text "user") then some m else last_user r

-- The conversation that `sendMessage` of the library ai makes of the messages and a text is a
-- parameter.
module _ (added : List Message → Text → List Message) where
  -- `sendMessage({ text })`
  unfoldable pub send_message : Text → Chat → Chat
  send_message s c = record c {
    messages = added c.messages s;
    status = submitted;
    error_shown = none;
    sent = added c.messages s ∷ c.sent;
  }

  -- `handleSend`
  unfoldable pub handle_send : Text → Chat → Chat
  unfolding send_message trim
  handle_send s c =
      if is_empty (trim s) || is_loading c.status
      then c
      else record (send_message s c) { has_started = true; input = [] }

  -- `onSubmit`
  unfoldable pub on_submit : Chat → Chat
  unfolding handle_send
  on_submit c = handle_send c.input c

  abbrev pub resend : Option Message → Chat → Chat
  resend none c = c
  resend (some m) c = send_message (get_message_text m) c

  -- `handleRetry`
  unfoldable pub handle_retry : Chat → Chat
  unfolding get_message_text send_message text_eq
  handle_retry c = resend (last_user (reverse c.messages)) c
