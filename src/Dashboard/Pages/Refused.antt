-- ===== src/Dashboard/Pages/Refused.antt =====
-- The page of an agent where the proxy refuses to answer.
use x402guard.Base.{
  ◌&&◌, leb, subst, ◌≡◌, refl, sym, ap, ◌∙◌, ◌⊎◌, inl, inr, ℕ, ltb, true, false, Bool-cases, [],
  ◌∷◌, ◌++◌, append_assoc, append-nil, if◌then◌else◌,
}
use x402guard.Js.Text.{Text, text, includes}
use x402guard.Js.Text.Laws.{includes-append}
use x402guard.Js.Number.{decimal}
use x402guard.Sdk.Errors.{Thrown, error, message_of, Result, ok, throw, bind_result}
use x402guard.Sdk.Io.{json, Request, Response, Reply, resolved, Trace, is_ok}
use x402guard.Dashboard.Proxy.{
  list_in, agent_in, PageServer, page_request, proxy_error, answer_at, agent_path, rules_path,
  keys_path, get_agent, get_agent_rules, get_agent_session_keys,
}
use x402guard.Dashboard.Pages.{
  Json, failure_text, AgentPage, not_found, failed, early, both, arrive, all_arrived,
  page_of_failure, page_of, render, loaded, load, agent_page,
}
use x402guard.Dashboard.Pages.Laws.{Visits, Visits-load}

-- A response that is not `ok`, with a further property.
abbrev pub Refuses : (Response → Type 0) → Reply → Type 0
Refuses Q rep = (r : Response) × (rep ≡ resolved r) × (is_ok r ≡ false) × Q r

module _ (p : PageServer) (id : Text) (Q : Response → Type 0) where
  -- An error about a path of the agent.
  abbrev Complains : Thrown → Type 0
  Complains e =
      (tail : Text) × (r : Response) × Q r × (e ≡ error (proxy_error p (agent_path id ++ tail) r))

  refused_fetch {ℓ} :
      {B : Type ℓ} (path : Text) (f : Json → Result B) (rep : Reply) (r : Response)
      → rep ≡ resolved r
      → is_ok r ≡ false
      → bind_result (answer_at p path rep) f ≡ throw (error (proxy_error p path r))
  unfolding answer_at
  refused_fetch path f rep r e h =
      ap (λ o. bind_result (answer_at p path o) f) e
      ∙ ap (λ b. bind_result (if b then json r else throw (error (proxy_error p path r))) f) h

  first_arrived {ℓ κ} :
      {A : Type ℓ} {B : Type κ} (n m : ℕ) (d e : Thrown)
      → Complains d
      → Complains e
      → (f : Thrown) × (k : ℕ) × (both {A = A} {B = B} (early n d) (early m e) ≡ early k f)
        × Complains f
  first_arrived n m d e x y = elim (Bool-cases (ltb m n)) [
    | inl second ↦ (e, m, rw second refl, y)
    | inr first ↦ (d, n, rw first refl, x)
  ]

  -- What is thrown where all three answers are refused.
  loaded_refused :
      (a r k : Reply)
      → Refuses Q a
      → Refuses Q r
      → Refuses Q k
      → (e : Thrown) × (loaded p id a r k ≡ throw e) × Complains e
  unfolding get_agent get_agent_rules get_agent_session_keys
  loaded_refused a r k (x, ax, bad_x, qx) (y, ry, bad_y, qy) (z, kz, bad_z, qz) =
      let c1 = error (proxy_error p (agent_path id ++ []) x) in
      let c2 = error (proxy_error p (rules_path id) y) in
      let c3 = error (proxy_error p (keys_path id) z) in
      let e1 : get_agent p id a ≡ throw c1 =
        refused_fetch (agent_path id) (agent_in id) a x ax bad_x
        ∙ ap (λ u. throw (error (proxy_error p u x))) (sym (append-nil (agent_path id))) in
      let e2 : get_agent_rules p id r ≡ throw c2 =
        refused_fetch (rules_path id) list_in r y ry bad_y in
      let e3 : get_agent_session_keys p id k ≡ throw c3 =
        refused_fetch (keys_path id) list_in k z kz bad_z in
      let (f, n, inner, complains) =
        first_arrived (p.arrival (rules_path id)) (p.arrival (keys_path id)) c2 c3
          (text "/rules", y, qy, refl) (text "/session-keys", z, qz, refl) in
      let (g, m, outer, complains') =
        first_arrived (p.arrival (agent_path id)) n c1 f ([], x, qx, refl) complains in
      (
        g,
        (λ i. all_arrived (
              both (arrive (p.arrival (agent_path id)) (e1 i)) (
                both (arrive (p.arrival (rules_path id)) (e2 i))
                  (arrive (p.arrival (keys_path id)) (e3 i)))))
            ∙ (ap (λ o. all_arrived (both (early (p.arrival (agent_path id)) c1) o)) inner
                ∙ ap all_arrived outer),
        complains',
      )

  -- The text of an error becomes the page.
  refused_load :
      (t : Trace)
      → ((u : Trace) (tail : Text)
          → Refuses Q (p.server.network u (page_request p (agent_path id ++ tail))))
      → (tail : Text) × (r : Response) × Q r
        × ((load p id t).0 ≡ ok (page_of_failure (proxy_error p (agent_path id ++ tail) r)))
  unfolding load message_of
  refused_load t every =
      let a =
        subst (λ u. Refuses Q (p.server.network t (page_request p u))) (append-nil (agent_path id))
          (every t []) in
      let (e, thrown, (tail, r, q, is_error)) =
        loaded_refused _ _ _ a (every _ (text "/rules")) (every _ (text "/session-keys")) in
      (
        tail,
        r,
        q,
        ap (λ o. ok (page_of (bind_result o render))) thrown
            ∙ ap (λ x. ok (page_of_failure (failure_text x))) is_error,
      )

-- The text of a refusal has the agent's id in it.
mentions :
    (p : PageServer) (r : Response) (before part after tail : Text)
    → includes (proxy_error p (agent_path (before ++ (part ++ after)) ++ tail) r) part ≡ true
mentions p r before part after tail =
    let front =
      text "Proxy API error: "
      ++ (decimal r.status
          ++ b' ' ∷ (p.status_text r ++ (text " for " ++ (text "/api/v1/agents/" ++ before)))) in
    ap (λ m. includes m part) (simp append_assoc) ∙ includes-append front part (after ++ tail)

-- Where the id of an agent has 404 in it and the proxy refuses what is asked about the agent, for whatever
-- reason, the page says that the agent is not found.
pub agent_page_404 :
    (p : PageServer) (before after : Text) (t : Trace)
    → Visits p.server t
    → ((u : Trace) (tail : Text)
        → Refuses
            (λ _. Unit {0})
            (p.server.network u
              (page_request p (agent_path (before ++ (text "404" ++ after)) ++ tail))))
    → (agent_page p (before ++ (text "404" ++ after)) t).0 ≡ ok not_found
unfolding page_of_failure
agent_page_404 p before after t visits every =
    let id = before ++ (text "404" ++ after) in
    let (tail, r, _, e) = refused_load p id (λ _. Unit {0}) t every in
    ap (λ o. o.0) (Visits-load p id t visits)
    ∙ (e
        ∙ ap (λ b. ok (if b then not_found else failed (proxy_error p (agent_path id ++ tail) r)))
            (mentions p r before (text "404") after tail))

-- The proxy asks for a key: what is asked about an agent without headers is answered with 401.
abbrev pub AsksForKey : PageServer → Type 0
AsksForKey p =
    (t : Trace) (req : Request) (path : Text)
    → req.headers ≡ []
    → req.url ≡ p.server.proxy_base ++ (text "/api/v1/agents/" ++ path)
    → (r : Response) × (p.server.network t req ≡ resolved r) × (r.status ≡ 401)

-- The page reports that the proxy does not know the visitor.
abbrev pub Denied : AgentPage → Type 0
Denied page =
    (page ≡ not_found) ⊎ ((rest : Text) × (page ≡ failed (text "Proxy API error: 401 " ++ rest)))

reported : (m rest : Text) → m ≡ text "Proxy API error: 401 " ++ rest → Denied (page_of_failure m)
unfolding page_of_failure
reported m rest e = elim (Bool-cases (includes m (text "404"))) [
  | inl found ↦ inl (rw found refl)
  | inr other ↦ inr (rest, rw other (ap failed e))
]

unauthorized_text :
    (p : PageServer) (path : Text) (r : Response)
    → r.status ≡ 401
    → proxy_error p path r
      ≡ text "Proxy API error: 401 " ++ (p.status_text r ++ (text " for " ++ path))
unfolding decimal text
unauthorized_text p path r e =
    ap
      (λ n.
        text "Proxy API error: "
        ++ (decimal n ++ b' ' ∷ (p.status_text r ++ (text " for " ++ path))))
      e

asked_without_key :
    (p : PageServer) (id : Text)
    → AsksForKey p
    → (u : Trace) (tail : Text)
    → Refuses (λ r. r.status ≡ 401) (p.server.network u (page_request p (agent_path id ++ tail)))
unfolding page_request
asked_without_key p id asks u tail =
    let (r, e, unknown) =
      asks u (page_request p (agent_path id ++ tail)) (id ++ tail) refl
        (ap (λ x. p.server.proxy_base ++ x) (append_assoc (text "/api/v1/agents/") id tail)) in
    (r, e, ap (λ n. leb 200 n && leb n 299) unknown, unknown)

-- Where the proxy asks for its key before it tells anything about agents, the page shows no agent to
-- anybody: it reports the 401, or that the agent is not found.
pub agent_page_keyless :
    (p : PageServer) (id : Text) (t : Trace)
    → Visits p.server t
    → AsksForKey p
    → (page : AgentPage) × ((agent_page p id t).0 ≡ ok page) × Denied page
agent_page_keyless p id t visits asks =
    let (tail, r, unknown, e) =
      refused_load p id (λ r. r.status ≡ 401) t (asked_without_key p id asks) in
    (
      page_of_failure (proxy_error p (agent_path id ++ tail) r),
      ap (λ o. o.0) (Visits-load p id t visits) ∙ e,
      reported _ _ (unauthorized_text p (agent_path id ++ tail) r unknown),
    )
