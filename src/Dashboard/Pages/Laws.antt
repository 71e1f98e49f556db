-- ===== src/Dashboard/Pages/Laws.antt =====
-- What the page of an agent shows.
use x402guard.Dashboard.Pages.Parts.{
  Brings, answer_at-Brings, bound, present_data-truthy, page_of-shown, both-late, arrive-late,
  all_arrived-ok, listed-some, ListedAt,
}
use x402guard.Base.{
  ◌≡◌, refl, sym, ap, ◌∙◌, ◌⊎◌, inl, inr, Bool, true, false, Option, some, none, [], ◌∷◌, ◌++◌,
}
use x402guard.Js.Text.{Text, text}
use x402guard.Js.Json.{Json}
use x402guard.Sdk.Errors.{Result, ok, throw, property, bind_result}
use x402guard.Sdk.Io.{Reply, called, Trace, ◌>>◌}
use x402guard.Dashboard.Session.{dev_user, login_redirect, Server, User, skips_auth, verify_session}
use x402guard.Dashboard.Agent.Values.{is_truthy}
use x402guard.Dashboard.Proxy.{
  PageServer, page_request, answer_at, agent_path, rules_path, keys_path, agent_in, get_agent,
  get_agent_rules, get_agent_session_keys,
}
use x402guard.Dashboard.Pages.{AgentPage, shown, listed, page_of, render, loaded, load, agent_page}

-- What a page that shows an agent has read: three answers, the first of which is a success.
pub record Read (p : PageServer) (id : Text) (t : Trace) (agent rules keys : Json) : Type 0 where
  pub body : Json
  pub has_agent : Brings (p.server.network t (page_request p (agent_path id))) body
  pub success : Option Json
  pub has_success : property (text "success") body ≡ ok success
  pub is_success : is_truthy success ≡ true
  pub is_agent : property (text "data") body ≡ ok (some agent)
  pub has_rules :
      ListedAt
        (p.server.network
          (called (page_request p (agent_path id)) ∷ t)
          (page_request p (rules_path id)))
        rules
  pub has_keys :
      ListedAt
        (p.server.network
          (called (page_request p (rules_path id)) ∷ called (page_request p (agent_path id)) ∷ t)
          (page_request p (keys_path id)))
        keys

module _ (p : PageServer) (id : Text) where
  listed_at :
      (path : Text) (rep : Reply) (o : Option Json) (v : Json)
      → bind_result (answer_at p path rep) (property (text "data")) ≡ ok o
      → o ≡ some v
      → ListedAt rep v
  listed_at path rep o v h e =
      let (body, got, has) = bound (answer_at p path rep) (property (text "data")) o h in
      (body, answer_at-Brings p path rep body got, has ∙ ap ok e)

  abbrev Loaded : Type 0
  Loaded = Json × (Option Json × Option Json)

  loaded-all :
      (a r k : Reply) (agent : Json) (rules keys : Option Json)
      → loaded p id a r k ≡ ok (agent, (rules, keys))
      → (get_agent p id a ≡ ok agent)
        × (get_agent_rules p id r ≡ ok rules)
        × (get_agent_session_keys p id k ≡ ok keys)
  loaded-all a r k agent rules keys h =
      let (x, y) = both-late _ _ agent (rules, keys) (all_arrived-ok _ _ h) in
      let (y1, y2) = both-late _ _ rules keys y in
      (arrive-late _ _ agent x, arrive-late _ _ rules y1, arrive-late _ _ keys y2)

  rendered :
      (agent agent' rules' keys' : Json) (rules keys : Option Json)
      → render (agent, (rules, keys)) ≡ ok (shown agent' rules' keys')
      → (agent ≡ agent') × (rules ≡ some rules') × (keys ≡ some keys')
  rendered agent agent' rules' keys' rules keys h =
      let (rs, e, g) = bound (listed rules) _ _ h in
      let (ks, e', g') = bound (listed keys) _ _ g in
      (cc, listed-some rules rs e ∙ cc, listed-some keys ks e' ∙ cc)

  agent_read :
      (rep : Reply) (agent : Json)
      → get_agent p id rep ≡ ok agent
      → (body : Json) × (success : Option Json) × Brings rep body
        × (property (text "success") body ≡ ok success)
        × (is_truthy success ≡ true)
        × (property (text "data") body ≡ ok (some agent))
  unfolding get_agent agent_in
  agent_read rep agent h =
      let (body, got, g) = bound (answer_at p (agent_path id) rep) (agent_in id) agent h in
      let (success, has_success, g') = bound (property (text "success") body) _ agent g in
      let (d, has_data, g'') = bound (property (text "data") body) _ agent g' in
      let (good, e) = present_data-truthy id body agent success d g'' in
      (
        body,
        success,
        answer_at-Brings p (agent_path id) rep body got,
        has_success,
        good,
        has_data ∙ ap ok e,
      )

  load-Read :
      (t : Trace) (agent rules keys : Json)
      → (load p id t).0 ≡ ok (shown agent rules keys)
      → Read p id t agent rules keys
  unfolding load get_agent_rules get_agent_session_keys
  load-Read t agent rules keys h =
      let t1 = called (page_request p (agent_path id)) ∷ t in
      let t2 = called (page_request p (rules_path id)) ∷ t1 in
      let x = p.server.network t (page_request p (agent_path id)) in
      let y = p.server.network t1 (page_request p (rules_path id)) in
      let z = p.server.network t2 (page_request p (keys_path id)) in
      let page_ : page_of (bind_result (loaded p id x y z) render) ≡ shown agent rules keys = cc in
      let ((a, (r, k)), e, g) =
        bound (loaded p id x y z) render _ (page_of-shown _ agent rules keys page_) in
      let (same, rs, ks) = rendered a agent rules keys r k g in
      let (ga, gr, gk) = loaded-all x y z a r k e in
      let (body, success, has_agent, has_success, good, is_agent) = agent_read x a ga in
      record {
        body = body;
        has_agent = has_agent;
        success = success;
        has_success = has_success;
        is_success = good;
        is_agent = is_agent ∙ ap (λ x. ok (some x)) same;
        has_rules = listed_at (rules_path id) y r rules gr rs;
        has_keys = listed_at (keys_path id) z k keys gk ks;
      }

  -- The requests of the page, the last one first.
  abbrev pub page_calls : Trace
  page_calls =
      called (page_request p (keys_path id))
      ∷ called (page_request p (rules_path id))
      ∷ called (page_request p (agent_path id))
      ∷ []

-- The visitor's session, if the page needs one.
abbrev pub Visits : Server → Trace → Type 0
Visits server t = (skips_auth server ≡ true) ⊎ ((user : User) × (server.get_user t ≡ some user))

session_cases :
    (server : Server) (t : Trace) (b : Bool) (o : Option User)
    → skips_auth server ≡ b
    → server.get_user t ≡ o
    → (((skips_auth server ≡ false)
          × (server.get_user t ≡ none)
          × (verify_session server t ≡ (throw login_redirect, t)))
        ⊎ (Visits server t × (user : User) × (verify_session server t ≡ (ok user, t))))
unfolding verify_session
session_cases server t true o e g = inr (inl e, dev_user, rw e refl)
session_cases server t false none e g = inl (e, g, rw (e, g) refl)
session_cases server t false (some u) e g = inr (inr (u, g), u, rw (e, g) refl)

module _ (p : PageServer) (id : Text) (t : Trace) where
  load-returns : (page : AgentPage) × (load p id t ≡ (ok page, page_calls p id ++ t))
  unfolding load
  load-returns = (_, refl)

  pub visited :
      (out : Result User × Trace)
      → verify_session p.server t ≡ out
      → agent_page p id t ≡ ((λ _. out) >> load p id) t
  unfolding agent_page
  visited out e = ap (λ o. ((λ _. o) >> load p id) t) e

-- With a session, the page is what its requests give.
pub Visits-load :
    (p : PageServer) (id : Text) (t : Trace) → Visits p.server t → agent_page p id t ≡ load p id t
Visits-load p id t visits =
    elim (session_cases p.server t (skips_auth p.server) (p.server.get_user t) refl refl) [
      | inl (checked, nobody, e) ↦ elim visits [
        | inl skips ↦ let bad : true ≡ false = sym skips ∙ checked in cc
        | inr (user, g) ↦ cc
      ]
      | inr (_, user, e) ↦ visited p id t _ e
    ]

-- How the page comes out.
abbrev pub Outcome : PageServer → Text → Trace → Type 0
Outcome p id t =
    ((skips_auth p.server ≡ false)
      × (p.server.get_user t ≡ none)
      × (agent_page p id t ≡ (throw login_redirect, t)))
    ⊎ (Visits p.server t
        × (page : AgentPage) × (agent_page p id t ≡ (ok page, page_calls p id ++ t))
        × ((agent rules keys : Json)
            → page ≡ shown agent rules keys
            → Read p id t agent rules keys))

-- Whatever the proxy answers: without a session the page redirects to the login and sends nothing;
-- with one it sends three requests that only read, throws nothing, and shows an agent with its rules and
-- session keys only as the answers to these requests give them, each of which is `ok` and the first of
-- which reports success.
pub agent_page-Read : (p : PageServer) (id : Text) (t : Trace) → Outcome p id t
agent_page-Read p id t =
    elim (session_cases p.server t (skips_auth p.server) (p.server.get_user t) refl refl) [
      | inl (checked, nobody, e) ↦ inl (checked, nobody, visited p id t _ e)
      | inr (visits, user, e) ↦
          let (page, loads) = load-returns p id t in
          inr (
            visits,
            page,
            visited p id t _ e ∙ loads,
            λ agent rules keys h. load-Read p id t agent rules keys (ap (λ o. o.0) loads ∙ ap ok h),
          )
    ]
