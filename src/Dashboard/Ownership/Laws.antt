-- ===== src/Dashboard/Ownership/Laws.antt =====
-- When the ownership check lets the user go on.
use x402guard.Base.{
  suc, ℕ, arith, ◌≡◌, refl, ◌∙◌, sym, ap, inl, inr, Bool, true, false, Bool-cases, Option, some,
  none, Option-cases, [], ◌∷◌, if◌then◌else◌,
}
use x402guard.Js.Text.{Text, text, text_eq, is_empty}
use x402guard.Js.Json.{Json}
use x402guard.Sdk.Errors.{Thrown, Result, ok, throw}
use x402guard.Sdk.Io.{
  Response, Reply, resolved, rejected, Io, Trace, called, pure, lift, catch, ◌>>=◌, is_ok, json,
  settle,
}
use x402guard.Dashboard.Session.{
  dev_user, user_or_redirect, Server, User, skips_auth, verify_session,
}
use x402guard.Dashboard.Ownership.{
  check_wallet, fetch, agent_request, owner_of, compare_owner, check_agent, check_owner,
  assert_agent_ownership,
}

-- The proxy answers that the wallet owns the agent.
pub record Owns (server : Server) (wallet : Text) (rep : Reply) : Type 0 where
  pub answer : Response
  pub body : Json
  pub owner : Text
  pub answered : rep ≡ resolved answer
  pub success : is_ok answer ≡ true
  pub parsed : answer.body ≡ some body
  pub read : owner_of body ≡ ok (some owner)
  pub same : text_eq (server.to_lower_case owner) (server.to_lower_case wallet) ≡ true

-- The user may act on the agent: the checks are off, or the session has a wallet that owns it.
pub data MayAct (server : Server) (id : Text) (t : Trace) : Type 0 where
  unchecked : skips_auth server ≡ true → MayAct server id t
  owns :
      (user : User) (wallet : Text)
      → server.get_user t ≡ some user
      → user.wallet_address ≡ some wallet
      → is_empty wallet ≡ false
      → Owns server wallet (server.network t (agent_request server id))
      → MayAct server id t

module _ (server : Server) (wallet : Text) where
  abbrev pub failed : Thrown → Io (Option Text)
  failed _ = pure (some (text "Failed to verify agent ownership"))

  abbrev pub judge : Result (Option Text) → Io (Option Text)
  judge m = do owner ← lift m; pure (compare_owner server wallet owner)

  judge-none :
      (m : Result (Option Text)) (t : Trace)
      → (catch (judge m) failed t).0 ≡ ok none
      → (o : Text) × (m ≡ ok (some o))
        × (text_eq (server.to_lower_case o) (server.to_lower_case wallet) ≡ true)
  unfolding compare_owner
  judge-none (throw e) t h = cc
  judge-none (ok none) t h = cc
  judge-none (ok (some o)) t h =
      elim (Bool-cases (text_eq (server.to_lower_case o) (server.to_lower_case wallet))) [
        | inl same ↦ (o, refl, same)
        | inr differ ↦ ground arith
      ]

  abbrev pub judge_answer : Bool → Result Json → Io (Option Text)
  judge_answer good m =
      if good
      then (do
        body ← lift m
        owner ← lift (owner_of body)
        pure (compare_owner server wallet owner))
      else pure (some (text "Agent not found"))

  judge_answer-none :
      (good : Bool) (m : Result Json) (t : Trace)
      → (catch (judge_answer good m) failed t).0 ≡ ok none
      → (good ≡ true)
        × (v : Json) × (m ≡ ok v)
        × (o : Text) × (owner_of v ≡ ok (some o))
        × (text_eq (server.to_lower_case o) (server.to_lower_case wallet) ≡ true)
  judge_answer-none false m t h = cc
  judge_answer-none true (throw e) t h = cc
  judge_answer-none true (ok v) t h =
      let (o, read, same) = judge-none (owner_of v) t h in (refl, v, refl, o, read, same)

  json-ok : (r : Response) (v : Json) → json r ≡ ok v → r.body ≡ some v
  json-ok r v h = elim (Option-cases r.body) [
    | inl missing ↦ ground arith
    | inr (w, parsed) ↦ ground arith
  ]

  Owns-of :
      (rep : Reply) (t : Trace)
      → (catch ((λ _. (settle rep, t)) >>= check_agent server wallet) failed []).0 ≡ ok none
      → Owns server wallet rep
  unfolding check_agent
  Owns-of (rejected e) t h = cc
  Owns-of (resolved r) t h =
      let (good, v, got, o, read, same) = judge_answer-none (is_ok r) (json r) t h in
      record {
        answer = r;
        body = v;
        owner = o;
        answered = refl;
        success = good;
        parsed = json-ok r v got;
        read = read;
        same = same;
      }

  judge-trace : (m : Result (Option Text)) (t : Trace) → (catch (judge m) failed t).1 ≡ t
  judge-trace (throw e) t = refl
  judge-trace (ok o) t = refl

  judge_answer-trace :
      (good : Bool) (m : Result Json) (t : Trace) → (catch (judge_answer good m) failed t).1 ≡ t
  judge_answer-trace false m t = refl
  judge_answer-trace true (throw e) t = refl
  judge_answer-trace true (ok v) t = judge-trace (owner_of v) t

  check_agent-trace :
      (rep : Reply) (t : Trace)
      → (catch ((λ _. (settle rep, t)) >>= check_agent server wallet) failed []).1 ≡ t
  unfolding check_agent
  check_agent-trace (rejected e) t = refl
  check_agent-trace (resolved r) t = judge_answer-trace (is_ok r) (json r) t

-- How many requests other than GET were sent.
abbrev pub mutations : Trace → ℕ
mutations [] = 0
mutations (called r ∷ t) =
    let rest = mutations t in if text_eq r.method (text "GET") then rest else suc rest
mutations (_ ∷ t) = mutations t

module _ (server : Server) (id : Text) where
  check_wallet-none :
      (w : Option Text) (t : Trace)
      → (check_wallet server id w t).0 ≡ ok none
      → (wallet : Text) × (w ≡ some wallet)
        × (is_empty wallet ≡ false)
        × Owns server wallet (server.network t (agent_request server id))
  unfolding check_owner fetch
  check_wallet-none none t h = cc
  check_wallet-none (some []) t h = cc
  check_wallet-none (some (c ∷ w)) t h = (
    c ∷ w,
    refl,
    refl,
    Owns-of server (c ∷ w) (server.network t (agent_request server id))
        (called (agent_request server id) ∷ t) h,
  )

  -- The check with the session read beforehand.
  abbrev pub checked : Bool → Option User → Io (Option Text)
  checked true u = pure none
  checked false u = user_or_redirect u >>= λ user. check_wallet server id user.wallet_address

  -- The check with the two readings of the environment made one.
  abbrev assert_as : Bool → Io (Option Text)
  assert_as b =
      if b
      then pure none
      else ((λ t. if b then (ok dev_user, t) else user_or_redirect (server.get_user t) t)
          >>= λ user. check_wallet server id user.wallet_address)

  assert_as-checked : (b : Bool) (t : Trace) → assert_as b t ≡ checked b (server.get_user t) t
  assert_as-checked true t = refl
  assert_as-checked false t = refl

  pub assert-checked :
      (t : Trace)
      → assert_agent_ownership server id t ≡ checked (skips_auth server) (server.get_user t) t
  unfolding assert_agent_ownership verify_session
  assert-checked t = assert_as-checked (skips_auth server) t

  checked-MayAct :
      (b : Bool) (u : Option User) (t : Trace)
      → skips_auth server ≡ b
      → server.get_user t ≡ u
      → (checked b u t).0 ≡ ok none
      → MayAct server id t
  checked-MayAct true u t e g h = unchecked e
  checked-MayAct false none t e g h = cc
  checked-MayAct false (some user) t e g h =
      let (wallet, has, filled, own) = check_wallet-none user.wallet_address t h in
      owns user wallet g has filled own

  -- The check passes only if the checks are off or the proxy answers, at that moment, that the
  -- wallet of the session owns the agent (up to upper and lower case).
  pub assert_agent_ownership-MayAct :
      (t : Trace) → (assert_agent_ownership server id t).0 ≡ ok none → MayAct server id t
  assert_agent_ownership-MayAct t h =
      checked-MayAct (skips_auth server) (server.get_user t) t refl refl
        (ap (λ o. o.0) (sym (assert-checked t)) ∙ h)

  check_wallet-mutations :
      (w : Option Text) (t : Trace) → mutations (check_wallet server id w t).1 ≡ mutations t
  unfolding check_owner fetch text text_eq
  check_wallet-mutations none t = refl
  check_wallet-mutations (some []) t = refl
  check_wallet-mutations (some (c ∷ w)) t = ap mutations (
      check_agent-trace server (c ∷ w) (server.network t (agent_request server id))
        (called (agent_request server id) ∷ t))

  checked-mutations :
      (b : Bool) (u : Option User) (t : Trace) → mutations (checked b u t).1 ≡ mutations t
  checked-mutations true u t = refl
  checked-mutations false none t = refl
  checked-mutations false (some user) t = check_wallet-mutations user.wallet_address t

  -- The check sends no request that changes anything.
  pub assert_agent_ownership-mutations :
      (t : Trace) → mutations (assert_agent_ownership server id t).1 ≡ mutations t
  assert_agent_ownership-mutations t =
      ap (λ o. mutations o.1) (assert-checked t)
      ∙ checked-mutations (skips_auth server) (server.get_user t) t
