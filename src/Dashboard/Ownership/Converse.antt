-- ===== src/Dashboard/Ownership/Converse.antt =====
-- The ownership check does not stop a user who may act on the agent.
use x402guard.Base.{◌≡◌, refl, ◌∙◌, ap, Bool, true, false, some, none, [], ◌∷◌}
use x402guard.Js.Text.{Text, text_eq, is_empty}
use x402guard.Js.Json.{Json}
use x402guard.Sdk.Errors.{Result, ok}
use x402guard.Sdk.Io.{Response, Reply, Trace, called, catch, ◌>>=◌, is_ok, json, settle}
use x402guard.Dashboard.Session.{Server, skips_auth}
use x402guard.Dashboard.Ownership.{
  agent_request, owner_of, compare_owner, check_agent, check_owner, fetch, check_wallet,
  assert_agent_ownership,
}
use x402guard.Dashboard.Ownership.Laws.{
  Owns, MayAct, unchecked, owns, failed, judge, judge_answer, checked, assert-checked,
}

module _ (server : Server) (wallet : Text) where
  judged :
      (o : Text) (t : Trace)
      → text_eq (server.to_lower_case o) (server.to_lower_case wallet) ≡ true
      → (catch (judge server wallet (ok (some o))) (failed server wallet) t).0 ≡ ok none
  unfolding compare_owner
  judged o t same = rw same refl

  json-some : (r : Response) (v : Json) → r.body ≡ some v → json r ≡ ok v
  json-some r v e = rw e refl

  judge_answer-some :
      (good : Bool) (m : Result Json) (v : Json) (o : Text) (t : Trace)
      → good ≡ true
      → m ≡ ok v
      → owner_of v ≡ ok (some o)
      → text_eq (server.to_lower_case o) (server.to_lower_case wallet) ≡ true
      → (catch (judge_answer server wallet good m) (failed server wallet) t).0 ≡ ok none
  judge_answer-some good m v o t g e read same =
      (λ i. (catch (judge_answer server wallet (g i) (e i)) (failed server wallet) t).0)
      ∙ ((λ i. (catch (judge server wallet (read i)) (failed server wallet) t).0) ∙ judged o t same)

  answered-none :
      (rep : Reply) (t : Trace)
      → Owns server wallet rep
      → (catch ((λ _. (settle rep, t)) >>= check_agent server wallet) (failed server wallet) []).0
        ≡ ok none
  unfolding check_agent
  answered-none rep t own =
      (λ i.
        (catch ((λ _. (settle (own.answered i), t)) >>= check_agent server wallet)
          (failed server wallet) []).0)
      ∙ judge_answer-some (is_ok own.answer) (json own.answer) own.body own.owner t own.success
          (json-some own.answer own.body own.parsed) own.read own.same

module _ (server : Server) (id : Text) where
  check_wallet-some :
      (wallet : Text) (t : Trace)
      → is_empty wallet ≡ false
      → Owns server wallet (server.network t (agent_request server id))
      → (check_wallet server id (some wallet) t).0 ≡ ok none
  unfolding check_owner fetch
  check_wallet-some [] t filled own = cc
  check_wallet-some (c ∷ w) t filled own =
      answered-none server (c ∷ w) (server.network t (agent_request server id))
        (called (agent_request server id) ∷ t) own

  checked-none :
      (t : Trace) (b : Bool)
      → skips_auth server ≡ b
      → MayAct server id t
      → (checked server id b (server.get_user t) t).0 ≡ ok none
  checked-none t true e m = refl
  checked-none t false e (unchecked skip) = cc
  checked-none t false e (owns user wallet g has filled own) =
      ap (λ u. (checked server id false u t).0) g
      ∙ (ap (λ w. (check_wallet server id w t).0) has ∙ check_wallet-some wallet t filled own)

  -- A user who may act on the agent passes the check.
  pub assert_agent_ownership_passes :
      (t : Trace) → MayAct server id t → (assert_agent_ownership server id t).0 ≡ ok none
  assert_agent_ownership_passes t m =
      ap (λ o. o.0) (assert-checked server id t) ∙ checked-none t (skips_auth server) refl m
