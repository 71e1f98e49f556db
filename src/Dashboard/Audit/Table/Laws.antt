-- ===== src/Dashboard/Audit/Table/Laws.antt =====
-- What the buttons of the audit log's table show.
use x402guard.Base.{
  ◌&&◌, Bool-cases, ℕ, zero, suc, ◌≤◌, ◌<◌, ◌≡◌, refl, ◌∙◌, sym, ap, subst, inl, inr, false, not,
  ltb, ltb→lt, All, some, none, List, [], ◌∷◌, ◌++◌, append_assoc, length, take, drop, last, arith,
}
use x402guard.Base.Slices.{take_all, take_all, All-middle}
use x402guard.Js.Text.{is_empty}
use x402guard.Sdk.Errors.{ok}
use x402guard.Dashboard.Audit.{
  present, filter_conditions, Row, Filters, Page, Database, size_of, fetch_audit_log,
}
use x402guard.Dashboard.Audit.Rest.{Service, Serves}
use x402guard.Dashboard.Audit.Pages.{first_page, selected, fetch_first, fetch_after}
use x402guard.Dashboard.Audit.Table.{
  first_id, change, next_enabled, read_on, shown, click_next, click_previous, answer, State,
  refetch, arrive, with_cursor, handle_filter_change,
}
use x402guard.Base.Cuts.{cut_page, last-snoc, take-append_drop, length-drop}
use x402guard.Dashboard.Audit.Table.Clicks.{clicked_next, clicked_previous, first_id-take, and-true}

module _ (sv : Service) (rows : List Row) (db : Database) (serves : Serves sv rows db) (f : Filters)
    (some_size : 0 < size_of f) (ids : All (λ r. is_empty r.id ≡ false) (selected sv f rows)) where
  abbrev view : List Row
  view = selected sv f rows

  fetch_behind :
      (r : Row) (before after : List Row)
      → view ≡ before ++ r ∷ after
      → fetch_audit_log db (with_cursor (some r.id) f) ≡ ok (first_page (size_of f) after)
  unfolding filter_conditions
  fetch_behind r before after place =
      fetch_after sv rows db serves (with_cursor (some r.id) f) r before after
        (All-middle (λ r. is_empty r.id ≡ false) before after r
          (subst (All (λ r. is_empty r.id ≡ false)) place ids))
        refl place

  -- A state that shows the page at the start of `rest`, where `rest` is what is left of the view.
  pub record Shows (rest : List Row) (s : State) : Type 0 where
    pub before : List Row
    pub place : view ≡ before ++ rest
    pub idle : s.pending ≡ []
    pub loaded : s.is_loading ≡ false
    pub same_filters : s.filters ≡ f
    pub shows : s.page ≡ first_page (size_of f) rest

  fetched :
      (fl : Filters) (r : Row) (before after : List Row) (old : Page)
      → fl ≡ f
      → view ≡ before ++ r ∷ after
      → shown (fetch_audit_log db (with_cursor (some r.id) fl)) old ≡ first_page (size_of f) after
  fetched fl r before after old e place =
      ap (λ g. shown (fetch_audit_log db (with_cursor (some r.id) g)) old) e
      ∙ ap (λ a. shown a old) (fetch_behind r before after place)

  -- Next leads from a page that is not the last one to the page that follows.
  next-Shows :
      (rest : List Row) (s : State)
      → Shows rest s
      → size_of f < length rest
      → Shows (drop (size_of f) rest) (click_next db s)
  unfolding refetch arrive
  next-Shows rest s h more =
      let (r, skipped, e, g) = cut_page (size_of f) rest more some_size in
      let place =
        h.place
        ∙ (ap (λ l. h.before ++ l) g
            ∙ sym (append_assoc h.before skipped (r ∷ drop (size_of f) rest))) in
      subst (Shows (drop (size_of f) rest))
        (sym (clicked_next db s r h.idle (ap (λ p. last p.rows) h.shows ∙ e)))
        (record {
          before = h.before ++ (skipped ++ r ∷ []);
          place =
              h.place
              ∙ (ap (λ l. h.before ++ l)
                    (g ∙ sym (append_assoc skipped (r ∷ []) (drop (size_of f) rest)))
                  ∙ sym (append_assoc h.before (skipped ++ r ∷ []) (drop (size_of f) rest)));
          loaded = refl;
          idle = refl;
          same_filters = h.same_filters;
          shows =
              fetched s.filters r (h.before ++ skipped) (drop (size_of f) rest) s.page
                h.same_filters place;
        })

  enabled :
      (rest : List Row) (s : State) → Shows rest s → next_enabled s ≡ ltb (size_of f) (length rest)
  unfolding next_enabled
  enabled rest s h =
      ap (λ p. p.has_next_page && not s.is_loading) h.shows
      ∙ (ap (λ b. ltb (size_of f) (length rest) && not b) h.loaded
          ∙ and-true (ltb (size_of f) (length rest)))

  -- From a page that is shown, Next reads all that is left of the view, in its order.
  read_rest :
      (fuel : ℕ) (rest : List Row) (s : State)
      → Shows rest s
      → length rest ≤ fuel
      → read_on fuel db s ≡ rest
  unfolding read_on
  read_rest zero [] s h enough = ap (λ p. p.rows) h.shows ∙ take_all (size_of f) [] (omega arith)
  read_rest zero (x ∷ rest) s h enough = elim enough [ ]
  read_rest (suc fuel) rest s h enough =
      rw (enabled rest s h) (elim (Bool-cases (ltb (size_of f) (length rest))) [
        | inl more ↦ rw more (
            ap (λ p. p.rows ++ read_on fuel db (click_next db s)) h.shows
            ∙ (ap (λ l. take (size_of f) rest ++ l)
                  (read_rest fuel (drop (size_of f) rest) (click_next db s)
                    (next-Shows rest s h (ltb→lt (size_of f) (length rest) more))
                    (omega (
                      arith,
                      some_size,
                      ltb→lt (size_of f) (length rest) more,
                      length-drop (size_of f) rest
                          (omega (arith, ltb→lt (size_of f) (length rest) more)),
                      enough,
                    )))
                ∙ take-append_drop (size_of f) rest))
        | inr end ↦ rw end (ap (λ p. p.rows) h.shows ∙ take_all (size_of f) rest (ground arith))
      ])

  -- A choice of filters, and what Next reads from there.
  pub read_on-change :
      (s : State) (fuel : ℕ)
      → present f.cursor_id ≡ none
      → s.pending ≡ []
      → length (selected sv f rows) ≤ fuel
      → read_on fuel db (change db f s) ≡ selected sv f rows
  unfolding handle_filter_change refetch arrive
  read_on-change s fuel first idle enough =
      read_rest fuel view (change db f s)
        (subst (Shows view)
          (sym (ap (λ l. answer db (l ++ f ∷ []) (handle_filter_change f s)) idle))
          (record {
            before = [];
            place = refl;
            idle = refl;
            loaded = refl;
            same_filters = refl;
            shows = ap (λ a. shown a s.page) (fetch_first sv rows db serves f first);
          }))
        enough

  stacked :
      (r : Row) (rest : List Row) (s : State)
      → Shows (r ∷ rest) s
      → size_of f < length (r ∷ rest)
      → last (click_next db s).cursor_stack ≡ some r.id
  unfolding refetch arrive
  stacked r rest s h more =
      let (z, _, e, _) = cut_page (size_of f) (r ∷ rest) more some_size in
      ap (λ u. last u.cursor_stack) (clicked_next db s z h.idle (ap (λ p. last p.rows) h.shows ∙ e))
      ∙ (ap (λ p. last (s.cursor_stack ++ first_id p.rows)) h.shows
          ∙ (ap (λ l. last (s.cursor_stack ++ l)) (first_id-take (size_of f) r rest some_size)
              ∙ last-snoc s.cursor_stack r.id))

  -- Where the audit log's service answers from a table, a page has at least one row and no selected
  -- row has an empty id: if a state shows the page of the selected rows that starts at `r`, and it
  -- is not the last page, then Next and Previous show the page that starts one row later, without
  -- `r`.
  pub previous_skips :
      (r : Row) (rest : List Row) (s : State)
      → Shows (r ∷ rest) s
      → size_of f < length (r ∷ rest)
      → (click_previous db (click_next db s)).page ≡ first_page (size_of f) rest
  unfolding refetch arrive
  previous_skips r rest s h more =
      let t = next-Shows (r ∷ rest) s h more in
      ap (λ u. u.page) (clicked_previous db (click_next db s) r.id t.idle (stacked r rest s h more))
      ∙ fetched (click_next db s).filters r h.before rest (click_next db s).page t.same_filters
          h.place
