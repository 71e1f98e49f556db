-- ===== src/Dashboard/Home/Laws.antt =====
-- What the list of agents shows.
use x402guard.Base.{
  ◌≡◌, refl, ap, ◌∙◌, inl, inr, true, false, Bool-cases, Option, some, none, List, [], ◌∷◌, ◌++◌,
  map, All, get_or, or_else, if◌then◌else◌,
}
use x402guard.Js.Text.{Text, text, text_eq}
use x402guard.Sdk.Errors.{ok}
use x402guard.Sdk.Io.{Trace, ◌>>=◌}
use x402guard.Adapters.Openclaw.{present}
use x402guard.Dashboard.Session.{User, verify_session}
use x402guard.Dashboard.Agent.{Found, found, problem}
use x402guard.Dashboard.Home.{
  owner_query, AgentRow, SpendRow, HomeServer, cards, spend_of, cards_of, rows_or_none,
  rows_or_throw, home_of, home_for, get_agents_by_owner, fetch_agent_spend_summary, home_page,
}

-- The last of the summaries that is the agent's, if any is.
pub data LastOf (id : Text) (rows : List SpendRow) : Option SpendRow → Type 0 where
  missing : All (λ r. text_eq r.agent_id id ≡ false) rows → LastOf id rows none
  last :
      (before : List SpendRow) (row : SpendRow) (after : List SpendRow)
      → rows ≡ before ++ row ∷ after
      → text_eq row.agent_id id ≡ true
      → All (λ r. text_eq r.agent_id id ≡ false) after
      → LastOf id rows (some row)

LastOf-cons :
    (id : Text) (row : SpendRow) (rows : List SpendRow) (o : Option SpendRow)
    → LastOf id rows o
    → LastOf id (row ∷ rows) (or_else o (if text_eq row.agent_id id then some row else none))
LastOf-cons id row rows o (missing none_) = elim (Bool-cases (text_eq row.agent_id id)) [
  | inl own ↦ rw own (last [] row rows refl own none_)
  | inr foreign ↦ rw foreign (missing (foreign, none_))
]
LastOf-cons id row rows o (last before r after e own none_) =
    last (row ∷ before) r after (ap (λ l. row ∷ l) e) own none_

spend_of-LastOf : (id : Text) (rows : List SpendRow) → LastOf id rows (spend_of id rows)
unfolding spend_of
spend_of-LastOf id [] = missing tt
spend_of-LastOf id (row ∷ rows) =
    LastOf-cons id row rows (spend_of id rows) (spend_of-LastOf id rows)

-- Each card has its agent's last summary.
abbrev pub Suits : List SpendRow → List (AgentRow × Option SpendRow) → Type 0
Suits spend = All (λ c. LastOf c.0.id spend c.1)

cards-Suits :
    (spend : List SpendRow) (agents : List AgentRow)
    → Suits spend (map (λ r. (r, spend_of r.id spend)) agents)
cards-Suits spend [] = tt
cards-Suits spend (a ∷ agents) = (spend_of-LastOf a.id spend, cards-Suits spend agents)

abbrev pub agent_of : AgentRow × Option SpendRow → AgentRow
agent_of (a, _) = a

cards-agents :
    (spend : List SpendRow) (agents : List AgentRow)
    → map agent_of (map (λ r. (r, spend_of r.id spend)) agents) ≡ agents
cards-agents spend [] = refl
cards-agents spend (a ∷ agents) = ap (λ l. a ∷ l) (cards-agents spend agents)

-- The summaries that the query finds, none where it fails.
abbrev pub summaries_in : Found (List SpendRow) → List SpendRow
summaries_in (problem _) = []
summaries_in (found rows) = get_or rows []

abbrev pub summaries_at : HomeServer → Trace → Text → List SpendRow
summaries_at h t owner = summaries_in (h.summaries_of t owner)

rows_or_none-summaries :
    (message : Text) (o : Found (List SpendRow))
    → rows_or_none (rows_or_throw message o) ≡ summaries_in o
rows_or_none-summaries message (problem m) = refl
rows_or_none-summaries message (found rows) = refl

module _ (h : HomeServer) (t : Trace) where
  fetched_summaries :
      (owner : Text) → rows_or_none (fetch_agent_spend_summary h t owner) ≡ summaries_at h t owner
  unfolding fetch_agent_spend_summary
  fetched_summaries owner =
      rows_or_none-summaries (text "Spend summary query failed: ") (h.summaries_of t owner)

  visited_home :
      (user : User) (o : Option Text)
      → verify_session h.server t ≡ (ok user, t)
      → present user.wallet_address ≡ o
      → home_page h t ≡ home_for h o t
  unfolding home_page
  visited_home user o e g =
      ap (λ out. ((λ _. out) >>= λ u. home_for h (present u.wallet_address)) t) e
      ∙ ap (λ w. home_for h w t) g

  -- For a user with a wallet that has agents, whatever the query for the summaries does, its failure
  -- included: the page shows these agents in the order of the query, each with its last summary if it
  -- has one, and changes nothing.
  pub home_page-cards :
      (user : User) (owner : Text) (a : AgentRow) (agents : List AgentRow)
      → verify_session h.server t ≡ (ok user, t)
      → present user.wallet_address ≡ some owner
      → h.agents_of t (owner_query owner) ≡ found (some (a ∷ agents))
      → (cs : List (AgentRow × Option SpendRow)) × (home_page h t ≡ (ok (cards cs), t))
        × (map agent_of cs ≡ a ∷ agents)
        × Suits (summaries_at h t owner) cs
  unfolding get_agents_by_owner cards_of
  home_page-cards user owner a agents e g rows =
      let spend = summaries_at h t owner in
      (
        map (λ r. (r, spend_of r.id spend)) (a ∷ agents),
        visited_home user (some owner) e g ∙ (λ i. (
          ok (
              home_of (rows_or_throw (text "Failed to fetch agents: ") (rows i))
                (fetched_summaries owner i)),
          t,
        )),
        cards-agents spend (a ∷ agents),
        cards-Suits spend (a ∷ agents),
      )
