-- ===== src/Dashboard/Spend/Warns.antt =====
-- How often the spend monitor warns.
use x402guard.Base.{
  Option, ℕ, ◌+◌, ◌≤◌, ◌<◌, ◌≡◌, refl, ◌∙◌, sym, ap, subst, ◌⊎◌, inl, inr, Bool, true, false, not,
  ◌&&◌, Bool-cases, some, List, [], ◌∷◌, ◌++◌, arith, if◌then◌else◌,
}
use x402guard.Js.Text.{Text}
use x402guard.Dashboard.Spend.{
  from_fraction, Float, Insert, Monitor, warning_text, watch, start_monitor, insert_and_render, run,
  total_of,
}
use x402guard.Dashboard.Spend.Laws.{
  insert_and_render_grows, run-total, is_near, share, pct_used-share, is_near_later,
  insert_and_render-spent, insert_and_render-prev_pct, insert_and_render-warnings,
}

module _ (agent name : Text) (cap : ℕ) (pos_cap : 0 < cap) where
  abbrev near : ℕ → Bool
  near = is_near cap

  abbrev share_of : ℕ → Option Float
  share_of = share agent name cap pos_cap

  abbrev rendered : Insert → Monitor → Monitor
  rendered = insert_and_render agent name (some cap)

  abbrev ran : List Insert → Monitor → Monitor
  ran = run agent name (some cap)

  rendered-prev_pct :
      (row : Insert) (m : Monitor) → (rendered row m).prev_pct ≡ share_of (rendered row m).spent
  rendered-prev_pct row m =
      insert_and_render-prev_pct agent name cap pos_cap row m
      ∙ ap share_of (sym (insert_and_render-spent agent name cap pos_cap row m))

  rendered-warnings :
      (row : Insert) (m : Monitor)
      → m.prev_pct ≡ share_of m.spent
      → (rendered row m).warnings ≡ (
          if not (near m.spent) && near (rendered row m).spent
          then m.warnings ++ warning_text name (share_of (rendered row m).spent)
          else m.warnings)
  rendered-warnings row m known =
      subst
        (λ u. (rendered row m).warnings ≡ (
          if not (near m.spent) && near u
          then m.warnings ++ warning_text name (share_of u)
          else m.warnings))
        (sym (insert_and_render-spent agent name cap pos_cap row m))
        (insert_and_render-warnings agent name cap pos_cap row m known)

  grows : (row : Insert) (m : Monitor) → m.spent ≤ (rendered row m).spent
  grows row m = insert_and_render_grows agent name cap pos_cap row m

  -- Above the threshold nothing is said any more.
  quiet :
      (rows : List Insert) (m : Monitor)
      → m.prev_pct ≡ share_of m.spent
      → near m.spent ≡ true
      → (ran rows m).warnings ≡ m.warnings
  unfolding run
  quiet [] m known above = refl
  quiet (row ∷ rows) m known above =
      quiet rows (rendered row m) (rendered-prev_pct row m)
        (is_near_later agent name cap pos_cap m.spent (rendered row m).spent (grows row m) above)
      ∙ (rendered-warnings row m known
          ∙ ap
              (λ b.
                if not b && near (rendered row m).spent
                then m.warnings ++ warning_text name (share_of (rendered row m).spent)
                else m.warnings)
              above)

  ran_grows : (rows : List Insert) (m : Monitor) → m.spent ≤ (ran rows m).spent
  ran_grows rows m = omega (arith, run-total agent name (some cap) rows m)

  -- A run from below the threshold: nothing is said if it ends there, and one thing otherwise.
  abbrev Heard : Monitor → Monitor → Type 0
  Heard m n =
      ((near n.spent ≡ false) × (n.warnings ≡ m.warnings))
      ⊎ ((near n.spent ≡ true)
          × (u : ℕ) × (m.spent ≤ u)
          × (u ≤ n.spent)
          × (near u ≡ true)
          × (n.warnings ≡ m.warnings ++ warning_text name (share_of u)))

  heard :
      (rows : List Insert) (m : Monitor)
      → m.prev_pct ≡ share_of m.spent
      → near m.spent ≡ false
      → Heard m (ran rows m)
  unfolding run
  heard [] m known under = inl (under, refl)
  heard (row ∷ rows) m known under =
      let n = rendered row m in
      let said = rendered-warnings row m known in
      elim (Bool-cases (near n.spent)) [
        | inl above ↦
            let still =
              is_near_later agent name cap pos_cap n.spent (ran rows n).spent (ran_grows rows n)
                above in
            let told = quiet rows n (rendered-prev_pct row m) above in
            inr (
              still,
              n.spent,
              grows row m,
              ran_grows rows n,
              above,
              told
                  ∙ (said ∙ (λ i.
                      if not (under i) && above i
                      then m.warnings ++ warning_text name (share_of n.spent)
                      else m.warnings)),
            )
        | inr below ↦
            let silent : n.warnings ≡ m.warnings = said ∙ (λ i.
              if not (under i) && below i
              then m.warnings ++ warning_text name (share_of n.spent)
              else m.warnings) in
            elim (heard rows n (rendered-prev_pct row m) below) [
              | inl (end, same) ↦ inl (end, same ∙ silent)
              | inr (end, u, from, until, above, added) ↦ inr (
                end,
                u,
                omega (arith, grows row m, from),
                until,
                above,
                added ∙ ap (λ l. l ++ warning_text name (share_of u)) silent,
              )
            ]
      ]

  -- Whatever rows come in, with a positive cap: the monitor shows what was spent before and the sum of
  -- the agent's rows. It has said nothing if it started at 80 % of the cap or more, or is still below; and
  -- otherwise it has warned just once, with the share of a sum that it had reached on the way and that
  -- is 80 % of the cap or more. (Shares are the doubles that the code computes.)
  pub run-Warns :
      (initial : ℕ) (rows : List Insert)
      → let m = run agent name (some cap) rows (start_monitor name (some cap) initial) in
        (m.spent ≡ initial + total_of agent rows)
        × (((is_near cap initial ≡ true) × (m.warnings ≡ []))
            ⊎ ((is_near cap m.spent ≡ false) × (m.warnings ≡ []))
            ⊎ ((is_near cap initial ≡ false)
                × (u : ℕ) × (initial ≤ u)
                × (u ≤ m.spent)
                × (is_near cap u ≡ true)
                × (m.warnings ≡ warning_text name (some (from_fraction false u cap)))))
  unfolding start_monitor watch
  run-Warns initial rows =
      let s = start_monitor name (some cap) initial in
      let known = pct_used-share agent name cap pos_cap initial in
      (
        run-total agent name (some cap) rows s,
        elim (Bool-cases (near initial)) [
          | inl above ↦ inl (above, quiet rows s known above)
          | inr under ↦ elim (heard rows s known under) [
            | inl silent ↦ inr (inl silent)
            | inr (_, u, from, until, above, said) ↦ inr (inr (under, u, from, until, above, said))
          ]
        ],
      )
