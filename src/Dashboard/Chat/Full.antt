-- ===== src/Dashboard/Chat/Full.antt =====
-- How long a conversation with the AI agent can be: the page together with the API.
use mathlib.Core.List.{reverse}
use mathlib.Core.Option.{some-injective}
use x402guard.Base.{
  leb, ℕ, suc, ◌≤◌, ◌<◌, ◌≡◌, ◌≢◌, refl, sym, ap, ◌∙◌, arith, true, false, ◌||◌, ◌&&◌, leb,
  Bool-cases, inl, inr, Option, some, none, List, [], ◌∷◌, ◌++◌, length, All, if◌then◌else◌,
}
use x402guard.Js.Text.{Text, trim, is_empty}
use x402guard.Js.Json.{arr, Items, Json, count_items}
use x402guard.Sdk.Errors.{ok}
use x402guard.Adapters.Openclaw.{present}
use x402guard.Dashboard.Agent.Post.Streams.{post_agent_streams}
use x402guard.Dashboard.Agent.{Acts, AgentServer}
use x402guard.Dashboard.Agent.Post.{
  AgentRequest, streamed, checked_messages, messages_in, post_agent,
}
use x402guard.Dashboard.Agent.Post.Laws.{Passes, post_agent-Admitted}
use x402guard.Dashboard.Chat.{
  Message, Chat, is_loading, last_user, send_message, handle_send, on_submit, resend, handle_retry,
  get_message_text,
}
use x402guard.Dashboard.Chat.Steps.{
  Transport, Step, type_in, suggest, submit, retry, answer, Reach, here, next,
}

module _ (lib : Transport) where
  abbrev pub request_of : Option Text → List Message → AgentRequest
  request_of forwarded ms = record { forwarded = forwarded; body = some (lib.encode ms) }

  -- Whatever the server, the API has the model answer no request with this conversation.
  abbrev pub Unanswered : List Message → Type 0
  Unanswered ms =
      (s : AgentServer) (forwarded : Option Text) (t : Acts) (m : Json)
      → (post_agent s (request_of forwarded ms) t).0 ≢ ok (streamed m)

  encoded :
      (ms : List Message)
      → (vs : Items) × (checked_messages (lib.encode ms) ≡ messages_in (some (arr vs)))
        × (count_items vs ≡ length ms)
  unfolding checked_messages
  encoded ms =
      let (fs, vs, e, g, n) = lib.has_messages ms in
      (vs, ap checked_messages e ∙ ap messages_in g, n)

  refused_encoded : (ms : List Message) → 20 < length ms → checked_messages (lib.encode ms) ≡ none
  refused_encoded ms h =
      let (vs, e, n) = encoded ms in
      e ∙ ap (λ b. if b then some vs else none) (too_many (count_items vs) (omega arith))
    where
      too_many : (k : ℕ) → 20 < k → (leb 1 k && leb k 20) ≡ false
      too_many k p = ground arith

  accepted_encoded :
      (ms : List Message)
      → 1 ≤ length ms
      → length ms ≤ 20
      → (vs : Items) × (checked_messages (lib.encode ms) ≡ some vs) × (count_items vs ≡ length ms)
  accepted_encoded ms h k =
      let (vs, e, n) = encoded ms in
      (
        vs,
        e
            ∙ ap (λ b. if b then some vs else none)
                (within (count_items vs) (omega arith) (omega arith)),
        n,
      )
    where
      within : (k : ℕ) → 1 ≤ k → k ≤ 20 → (leb 1 k && leb k 20) ≡ true
      within k p q = ground arith

  too_long : (ms : List Message) → 20 < length ms → Unanswered ms
  too_long ms h s forwarded t m streams =
      let (_, admitted) = post_agent-Admitted s (request_of forwarded ms) m t streams in
      let same : lib.encode ms ≡ admitted.body = some-injective _ _ admitted.is_json in
      let bad : ◌≡◌ {A = Option Items} none (some admitted.messages) =
        sym (refused_encoded ms h) ∙ (ap checked_messages same ∙ admitted.accepted) in
      cc

  -- The conversation is full, and none of the requests since is answered.
  abbrev Grown : Chat → Chat → Type 0
  Grown c d =
      (20 ≤ length d.messages)
      × (new : List (List Message)) × (d.sent ≡ new ++ c.sent)
      × All Unanswered new

  send_message-Grown : (s : Text) (c d : Chat) → Grown c d → Grown c (send_message lib.added s d)
  unfolding send_message
  send_message-Grown s c d (full, new, e, unanswered) =
      let longer = lib.adds_one d.messages s in
      (
        omega arith,
        lib.added d.messages s ∷ new,
        ap (λ l. lib.added d.messages s ∷ l) e,
        (too_long (lib.added d.messages s) (omega arith), unanswered),
      )

  handle_send-Grown : (s : Text) (c d : Chat) → Grown c d → Grown c (handle_send lib.added s d)
  unfolding handle_send
  handle_send-Grown s c d g = elim (Bool-cases (is_empty (trim s) || is_loading d.status)) [
    | inl blocked ↦ rw blocked g
    | inr free ↦ rw free (send_message-Grown s c d g)
  ]

  resend-Grown : (o : Option Message) (c d : Chat) → Grown c d → Grown c (resend lib.added o d)
  resend-Grown none c d g = g
  resend-Grown (some m) c d g = send_message-Grown (get_message_text m) c d g

  Step-Grown : (c : Chat) {d e : Chat} → Step lib d e → Grown c d → Grown c e
  unfolding on_submit handle_retry
  Step-Grown c (type_in d s) g = g
  Step-Grown c (suggest d s) g = handle_send-Grown s c d g
  Step-Grown c (submit d) g = handle_send-Grown d.input c d g
  Step-Grown c (retry d) g = resend-Grown (last_user (reverse d.messages)) c d g
  Step-Grown c (answer d ms status e longer) (full, new, sent_, unanswered) =
      (omega arith, new, sent_, unanswered)

  Reach-Grown : (c : Chat) {d : Chat} → Reach lib c d → Grown c c → Grown c d
  Reach-Grown c here g = g
  Reach-Grown c (next r step) g = Step-Grown c step (Reach-Grown c r g)

  -- Once the conversation has 20 messages: whatever the visitor and the library do from there on,
  -- trying again included, and whatever the server, the API has the model answer none of the requests
  -- that the page sends.
  pub chat_full :
      (c d : Chat)
      → Reach lib c d
      → 20 ≤ length c.messages
      → (new : List (List Message)) × (d.sent ≡ new ++ c.sent) × All Unanswered new
  chat_full c d reached full =
      let (_, new, e, unanswered) = Reach-Grown c reached (full, [], refl, tt) in
      (new, e, unanswered)

  -- What a server needs to answer, besides the conversation.
  pub record Serving (s : AgentServer) : Type 0 where
    pub agent_id : Text
    pub has_agent : present s.demo_agent_id ≡ some agent_id
    pub key : Text
    pub has_key : present s.anthropic_api_key ≡ some key

  -- As long as the conversation has fewer than 20 messages: a text that is not blank, sent while nothing
  -- is loading, makes the page send the conversation with that text, and the model answers it wherever
  -- the agent and the key are configured, the limiter lets the request pass and the messages can be
  -- converted.
  pub chat_answered :
      (c : Chat) (said : Text)
      → is_empty (trim said) ≡ false
      → is_loading c.status ≡ false
      → length c.messages < 20
      → ((handle_send lib.added said c).sent ≡ lib.added c.messages said ∷ c.sent)
        × (vs : Items) × (count_items vs ≡ suc (length c.messages))
        × ((s : AgentServer) (forwarded : Option Text) (t : Acts) (m : Json)
            → Serving s
            → Passes s (request_of forwarded (lib.added c.messages said)) t
            → s.convert_messages vs ≡ ok m
            → (post_agent s (request_of forwarded (lib.added c.messages said)) t).0
              ≡ ok (streamed m))
  unfolding handle_send send_message
  chat_answered c said filled idle short =
      let ms = lib.added c.messages said in
      let one = lib.adds_one c.messages said in
      let (vs, accepted, n) = accepted_encoded ms (omega arith) (omega arith) in
      (
        rw (filled, idle) refl,
        vs,
        n ∙ one,
        λ s forwarded t m serving passes converted.
            post_agent_streams s (request_of forwarded ms) m
              (record {
                agent_id = serving.agent_id;
                has_agent = serving.has_agent;
                key = serving.key;
                has_key = serving.has_key;
                body = lib.encode ms;
                is_json = refl;
                messages = vs;
                accepted = accepted;
                some_messages = omega arith;
                at_most_20 = omega arith;
                converted = converted;
              })
              t passes,
      )
