-- ===== src/Dashboard/Chat/Steps.antt =====
-- What can happen on the page of the AI agent: the visitor's actions, and what the library ai does.
use x402guard.Base.{suc, ◌≤◌, ◌≡◌, Option, some, List, length}
use x402guard.Js.Text.{Text, text}
use x402guard.Js.Json.{Json, Items, Fields, arr, obj, get_field, count_items}
use x402guard.Dashboard.Chat.{Message, Status, Chat, handle_send, on_submit, handle_retry}

-- The library ai: the conversation with a further message of the user, and the body that its transport
-- sends of a conversation.
pub record Transport : Type 0 where
  pub added : List Message → Text → List Message
  pub encode : List Message → Json
  pub adds_one : (ms : List Message) (s : Text) → length (added ms s) ≡ suc (length ms)
  pub has_messages :
      (ms : List Message)
      → (fs : Fields) × (vs : Items) × (encode ms ≡ obj fs)
        × (get_field (text "messages") fs ≡ some (arr vs))
        × (count_items vs ≡ length ms)

-- The visitor types, picks a suggestion or submits, tries again after an error; an answer changes the
-- conversation, from which nothing is taken.
pub data Step (lib : Transport) : Chat → Chat → Type 0 where
  type_in : (c : Chat) (s : Text) → Step lib c (record c { input = s })
  suggest : (c : Chat) (s : Text) → Step lib c (handle_send lib.added s c)
  submit : (c : Chat) → Step lib c (on_submit lib.added c)
  retry : (c : Chat) → Step lib c (handle_retry lib.added c)
  answer :
      (c : Chat) (ms : List Message) (status : Status) (e : Option Text)
      → length c.messages ≤ length ms
      → Step lib c (record c { messages = ms; status = status; error_shown = e })

pub data Reach (lib : Transport) (c : Chat) : Chat → Type 0 where
  here : Reach lib c c
  next : {d e : Chat} → Reach lib c d → Step lib d e → Reach lib c e
