-- ===== src/Dashboard/Spend/Laws.antt =====
-- When the spend monitor warns.
use native.Mathlib.Nat.{mul-le-mul_right}
use x402guard.Base.{
  ◌^◌, ◌*◌, ℕ, ◌+◌, ◌≤◌, ◌<◌, ◌≡◌, refl, ◌∙◌, sym, ap, subst, inl, inr, Bool, true, false, not,
  ◌&&◌, Bool-cases, ltb, lt→ltb, leb, Option, some, List, [], ◌∷◌, ◌++◌, arith, if◌then◌else◌,
}
use x402guard.Js.Text.{Text, text_eq}
use x402guard.Js.Float.{Float, finite, infinite, bounded, from_fraction, unit}
use x402guard.Js.Float.Order.{round_quotient_order}
use x402guard.Dashboard.Spend.{
  Insert, Monitor, at_least, below, eight_tenths, pct_used, crosses, warning_text, watch, receive,
  insert_and_render, run, total_of,
}

-- What a row adds.
receive-spent :
    (agent : Text) (row : Insert) (m : Monitor) (rest : ℕ)
    → (receive agent row m).spent + rest
      ≡ m.spent + (if text_eq row.agent_id agent then row.amount + rest else rest)
unfolding receive
receive-spent agent row m rest = elim (Bool-cases (text_eq row.agent_id agent)) [
  | inl own ↦ rw own (omega arith)
  | inr foreign ↦ rw foreign refl
]

-- Whatever rows come in, the monitor shows what was spent before and the sum of the agent's rows.
pub run-total :
    (agent name : Text) (cap : Option ℕ) (rows : List Insert) (m : Monitor)
    → (run agent name cap rows m).spent ≡ m.spent + total_of agent rows
unfolding run insert_and_render watch total_of
run-total agent name cap [] m = omega arith
run-total agent name cap (row ∷ rows) m =
    run-total agent name cap rows (insert_and_render agent name cap row m)
    ∙ receive-spent agent row m (total_of agent rows)

at_least-bounded :
    (n m y : ℕ)
    → n ≤ m
    → at_least (bounded false n) (finite false y) ≡ true
    → at_least (bounded false m) (finite false y) ≡ true
unfolding bounded at_least
at_least-bounded n m y h enough = elim (Bool-cases (ltb m (unit * 2 ^ 1024))) [
  | inl fits ↦
      let fits_too : ltb n (unit * 2 ^ 1024) ≡ true = ground arith in
      let e : leb y n ≡ true =
        subst (λ b. at_least (if b then finite false n else infinite false) (finite false y) ≡ true)
          fits_too enough in
      rw fits (ground arith)
  | inr over ↦ rw over refl
]

below-bounded :
    (n y : ℕ)
    → below (bounded false n) (finite false y) ≡ not (at_least (bounded false n) (finite false y))
unfolding bounded at_least
below-bounded n y = elim (Bool-cases (ltb n (unit * 2 ^ 1024))) [
  | inl fits ↦ rw fits (ground arith)
  | inr over ↦ rw over refl
]

threshold : (y : ℕ) × (eight_tenths ≡ finite false y)
unfolding bounded unit eight_tenths
threshold = (_, refl)

-- Whether a sum is 80 % of the cap or more, as the monitor computes it.
abbrev pub is_near : ℕ → ℕ → Bool
is_near cap spent = at_least (from_fraction false spent cap) eight_tenths

module _ (agent name : Text) (cap : ℕ) (pos_cap : 0 < cap) where
  abbrev pub share : ℕ → Option Float
  share spent = some (from_fraction false spent cap)

  pub pct_used-share : (spent : ℕ) → pct_used (some cap) spent ≡ share spent
  unfolding pct_used
  pct_used-share spent = rw (lt→ltb 0 cap pos_cap) refl

  pub is_near_later : (s u : ℕ) → s ≤ u → is_near cap s ≡ true → is_near cap u ≡ true
  unfolding from_fraction
  is_near_later s u h near =
      let (y, e) = threshold in
      let order =
        round_quotient_order (s * unit) (u * unit) cap pos_cap (mul-le-mul_right unit h) in
      ap (at_least (from_fraction false u cap)) e
      ∙ at_least-bounded _ _ y order (sym (ap (at_least (from_fraction false s cap)) e) ∙ near)

  crosses-is_near : (s u : ℕ) → crosses (share s) (share u) ≡ (not (is_near cap s) && is_near cap u)
  unfolding crosses from_fraction
  crosses-is_near s u =
      let (y, e) = threshold in
      ap (λ b. b && is_near cap u)
        (ap (below (from_fraction false s cap)) e
          ∙ (below-bounded _ y ∙ ap (λ z. not (at_least (from_fraction false s cap) z)) (sym e)))

  -- What a row and the render after it do to the sum and the warnings.
  pub insert_and_render-spent :
      (row : Insert) (m : Monitor)
      → (insert_and_render agent name (some cap) row m).spent ≡ (receive agent row m).spent
  unfolding insert_and_render watch
  insert_and_render-spent row m = refl

  pub insert_and_render-prev_pct :
      (row : Insert) (m : Monitor)
      → (insert_and_render agent name (some cap) row m).prev_pct ≡ share (receive agent row m).spent
  unfolding insert_and_render watch
  insert_and_render-prev_pct row m = pct_used-share (receive agent row m).spent

  pub insert_and_render_grows :
      (row : Insert) (m : Monitor) → m.spent ≤ (insert_and_render agent name (some cap) row m).spent
  unfolding insert_and_render watch receive
  insert_and_render_grows row m = elim (Bool-cases (text_eq row.agent_id agent)) [
    | inl own ↦ rw own (omega arith)
    | inr foreign ↦ rw foreign (omega arith)
  ]

  receive-warnings : (row : Insert) (m : Monitor) → (receive agent row m).warnings ≡ m.warnings
  unfolding receive
  receive-warnings row m = elim (Bool-cases (text_eq row.agent_id agent)) [
    | inl own ↦ rw own refl
    | inr foreign ↦ rw foreign refl
  ]

  receive-prev_pct : (row : Insert) (m : Monitor) → (receive agent row m).prev_pct ≡ m.prev_pct
  unfolding receive
  receive-prev_pct row m = elim (Bool-cases (text_eq row.agent_id agent)) [
    | inl own ↦ rw own refl
    | inr foreign ↦ rw foreign refl
  ]

  watch-warnings :
      (pct : Option Float) (m : Monitor)
      → (watch name pct m).warnings
        ≡ (if crosses m.prev_pct pct then m.warnings ++ warning_text name pct else m.warnings)
  unfolding watch
  watch-warnings pct m = refl

  pub insert_and_render-warnings :
      (row : Insert) (m : Monitor)
      → m.prev_pct ≡ share m.spent
      → (insert_and_render agent name (some cap) row m).warnings ≡ (
          if not (is_near cap m.spent) && is_near cap (receive agent row m).spent
          then m.warnings ++ warning_text name (share (receive agent row m).spent)
          else m.warnings)
  unfolding insert_and_render
  insert_and_render-warnings row m known =
      let r = receive agent row m in
      let before : r.prev_pct ≡ share m.spent = receive-prev_pct row m ∙ known in
      let shown : r.warnings ≡ m.warnings = receive-warnings row m in
      ap (λ q. (watch name q r).warnings) (pct_used-share r.spent)
      ∙ (watch-warnings (share r.spent) r
          ∙ ((λ i.
                if crosses (before i) (share r.spent)
                then shown i ++ warning_text name (share r.spent)
                else shown i)
              ∙ ap (λ b. if b then m.warnings ++ warning_text name (share r.spent) else m.warnings)
                  (crosses-is_near m.spent r.spent)))
