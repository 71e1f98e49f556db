-- ===== src/Dashboard/Audit/Table/Clicks.antt =====
-- A click on a button of the audit log's table, as a fetch that is answered.
use x402guard.Base.{
  ◌&&◌, ℕ, zero, suc, ◌<◌, ◌≡◌, refl, ◌∙◌, ap, Bool, true, false, some, List, [], ◌∷◌, ◌++◌, take,
  last, drop_last,
}
use x402guard.Js.Text.{Text}
use x402guard.Dashboard.Audit.{Row, Database}
use x402guard.Dashboard.Audit.Table.{
  first_id, next_after, click_next, click_previous, answer, State, refetch, arrive, with_cursor,
  handle_next, handle_previous,
}

-- A click on Next with nothing pending, as a fetch that is answered.
pub clicked_next :
    (db : Database) (s : State) (r : Row)
    → s.pending ≡ []
    → last s.page.rows ≡ some r
    → click_next db s ≡ arrive db (with_cursor (some r.id) s.filters) [] (next_after (some r) s)
unfolding handle_next refetch
clicked_next db s r idle e =
    ap (λ o. let t = next_after o s in answer db t.pending t) e
    ∙ ap (λ l. answer db (l ++ with_cursor (some r.id) s.filters ∷ []) (next_after (some r) s)) idle

-- Likewise for Previous.
pub clicked_previous :
    (db : Database) (s : State) (id : Text)
    → s.pending ≡ []
    → last s.cursor_stack ≡ some id
    → click_previous db s
      ≡ arrive db (with_cursor (some id) s.filters) [] (
          refetch
            (with_cursor (some id) s.filters)
            (record s { cursor_stack = drop_last s.cursor_stack }))
unfolding handle_previous refetch
clicked_previous db s id idle e =
    ap
      (λ o.
        let t =
          refetch (with_cursor o s.filters)
            (record s { cursor_stack = drop_last s.cursor_stack }) in
        answer db t.pending t)
      e
    ∙ ap
        (λ l. answer db (l ++ with_cursor (some id) s.filters ∷ []) (
          refetch (with_cursor (some id) s.filters)
            (record s { cursor_stack = drop_last s.cursor_stack })))
        idle

pub first_id-take :
    (n : ℕ) (r : Row) (rest : List Row) → 0 < n → first_id (take n (r ∷ rest)) ≡ r.id ∷ []
unfolding take
first_id-take zero r rest p = elim p [ ]
first_id-take (suc n) r rest p = refl

pub and-true : (b : Bool) → (b && true) ≡ b
and-true true = refl
and-true false = refl
