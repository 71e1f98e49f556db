-- ===== src/Dashboard/Agent/Spending/Laws.antt =====
-- What the day's spending is compared with.
use x402guard.Base.{ℕ, List, some, none, ◌∷◌, length, ◌≡◌, refl, ◌∙◌, ap, if◌then◌else◌}
use x402guard.Js.Text.{Text, text}
use x402guard.Js.Json.{str, Items, nil, cons}
use x402guard.Sdk.Errors.{ok}
use x402guard.Adapters.Openclaw.{present}
use x402guard.Dashboard.Agent.{
  Acts, asked, found, AgentServer, pure, lift, ◌>>=◌, required, get_demo_agent_id,
}
use x402guard.Dashboard.Agent.Values.{optional_field, select_amounts, rules_question}
use x402guard.Dashboard.Agent.Spending.{
  summary, value, sum, summary_of, rules_found, or_no_limit, is_daily, daily_rule, daily_limit,
  spends_question, summarize, get_spend_summary,
}

-- The type of each rule is a text, as in the table of the rules (docker/init.sql).
abbrev pub HasTextTypes : Items → Type 0
HasTextTypes nil = Unit
HasTextTypes (cons r rs) =
    ((t : Text) × (optional_field (text "rule_type") (some r) ≡ some (str t))) × HasTextTypes rs

daily_rule_unseen : (rules : Items) → HasTextTypes rules → daily_rule rules ≡ none
unfolding daily_rule
daily_rule_unseen nil h = refl
daily_rule_unseen (cons r rs) ((t, e), h) =
    ap (λ o. if is_daily (optional_field (text "type") o) then some r else daily_rule rs) e
    ∙ daily_rule_unseen rs h

-- Where the types of the rules are texts, as the table has them, no limit is found: the summary shows
-- the sum of the day's amounts and their number, and calls the daily limit not set and what remains
-- unlimited, whatever the rules are.
pub get_spend_summary_unlimited :
    (s : AgentServer) (t : Acts) (id : Text) (amounts : List ℕ) (rules : Items)
    → present s.demo_agent_id ≡ some id
    → s.select_amounts t (spends_question s id (s.today t)) ≡ found (some amounts)
    → s.select (asked (spends_question s id (s.today t)) ∷ t) (rules_question (text "rule_type") id)
      ≡ found (some rules)
    → HasTextTypes rules
    → (get_spend_summary s t).0
      ≡ ok (
          summary (record {
            today_spent = sum amounts;
            transaction_count = length amounts;
            daily_limit = value (str (text "No limit set"));
            remaining = value (str (text "Unlimited"));
          }))
unfolding get_spend_summary get_demo_agent_id lift ◌>>=◌ pure daily_limit
get_spend_summary_unlimited s t id amounts rules e g k h =
    let q = spends_question s id (s.today t) in
    ap
      (λ o.
        ((lift (required (text "DEMO_AGENT_ID not configured — agent demo disabled") o) >>= λ i.
        (λ u. (ok (s.today u), u)) >>= λ since.
        select_amounts s (spends_question s i since) >>= λ a. summarize s i a)
          t).0)
      e
    ∙ (ap (λ a. (summarize s id a (asked q ∷ t)).0) g
        ∙ (ap (λ r. ok (summary (summary_of amounts (daily_limit (rules_found r))))) k
            ∙ ap
                (λ r. ok (
                  summary (
                    summary_of amounts (
                      or_no_limit (
                        optional_field (text "limit") (
                          optional_field (text "params") (optional_field (text "rule_type") r)))))))
                (daily_rule_unseen rules h)))
