-- ===== src/Dashboard/Chat/Tests.antt =====
-- Runs of the page of the AI agent.
use x402guard.Base.{
  ap, ◌≡◌, refl, arith, suc, true, false, Option, some, none, List, [], ◌∷◌, ◌++◌, length,
  length-append, All,
}
use x402guard.Js.Text.{Text, text, text_eq, trim, is_space, drop_while, drop_end}
use x402guard.Js.Json.{Json, Items, null, nil, cons, arr, obj, field, end, get_field, count_items}
use x402guard.Sdk.Errors.{ok}
use x402guard.Dashboard.Agent.{Acts, AgentServer}
use x402guard.Dashboard.Agent.Post.{streamed, post_agent}
use x402guard.Dashboard.Agent.Post.Laws.{Passes}
use x402guard.Dashboard.Chat.{Message, Chat, errored, ready, handle_send, handle_retry}
use x402guard.Dashboard.Chat.Steps.{Transport, here, next, retry}
use x402guard.Dashboard.Chat.Full.{Unanswered, Serving, request_of, chat_full, chat_answered}

abbrev user_message : Text → Message
user_message s = record {
  role = text "user";
  parts = some (record { kind = text "text"; body = s; tool_name = none; state = none } ∷ []);
}

abbrev nulls : List Message → Items
nulls [] = nil
nulls (m ∷ ms) = cons null (nulls ms)

count-nulls : (ms : List Message) → count_items (nulls ms) ≡ length ms
count-nulls [] = refl
count-nulls (m ∷ ms) = ap suc (count-nulls ms)

length-snoc : (ms : List Message) (m : Message) → length (ms ++ m ∷ []) ≡ suc (length ms)
length-snoc ms m = omega (arith, length-append ms (m ∷ []))

-- Messages are sent as nulls.
abbrev transport : Transport
unfolding get_field text text_eq
transport = record {
  added = λ ms s. ms ++ user_message s ∷ [];
  encode = λ ms. obj (field (text "messages") (arr (nulls ms)) end);
  adds_one = λ ms s. length-snoc ms (user_message s);
  has_messages = λ ms. (_, nulls ms, refl, refl, count-nulls ms);
}

abbrev hello : Message
hello = user_message (text "hello")

abbrev twenty : List Message
twenty =
    hello ∷ hello ∷ hello ∷ hello ∷ hello ∷ hello ∷ hello ∷ hello ∷ hello ∷ hello ∷ hello ∷ hello
    ∷ hello ∷ hello ∷ hello ∷ hello ∷ hello ∷ hello ∷ hello ∷ hello ∷ []

abbrev full : Chat
full = record {
  messages = twenty;
  status = errored;
  error_shown = some (text "Invalid request");
  input = [];
  has_started = true;
  sent = [];
}

chat_full_example :
    (new : List (List Message)) × ((handle_retry transport.added full).sent ≡ new ++ [])
    × All (Unanswered transport) new
chat_full_example =
    chat_full transport full (handle_retry transport.added full) (next here (retry full))
      (omega arith)

abbrev fresh : Chat
fresh = record {
  messages = [];
  status = ready;
  error_shown = none;
  input = [];
  has_started = false;
  sent = [];
}

chat_answered_example :
    ((handle_send transport.added (text "hi") fresh).sent ≡ (user_message (text "hi") ∷ []) ∷ [])
    × (vs : Items) × (count_items vs ≡ 1)
    × ((s : AgentServer) (forwarded : Option Text) (t : Acts) (m : Json)
        → Serving transport s
        → Passes s (request_of transport forwarded (user_message (text "hi") ∷ [])) t
        → s.convert_messages vs ≡ ok m
        → (post_agent s (request_of transport forwarded (user_message (text "hi") ∷ [])) t).0
          ≡ ok (streamed m))
unfolding trim is_space drop_while drop_end text transport
chat_answered_example = chat_answered transport fresh (text "hi") refl refl (omega arith)
