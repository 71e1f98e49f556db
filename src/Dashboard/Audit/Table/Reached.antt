-- ===== src/Dashboard/Audit/Table/Reached.antt =====
-- The filters that the controls of the audit log's table lead to.
use x402guard.Base.{
  get_or, ◌∙◌, false, ℕ, ◌≤◌, ◌<◌, ◌≡◌, refl, ap, subst, sym, All, Option, none, some, List, [],
  length, arith,
}
use x402guard.Js.Text.{Text, is_empty}
use x402guard.Adapters.Openclaw.{present}
use x402guard.Dashboard.Audit.{EventType, Row, Page, Filters, Database}
use x402guard.Dashboard.Audit.Rest.{Service, Serves}
use x402guard.Dashboard.Audit.Pages.{selected}
use x402guard.Dashboard.Audit.Table.{
  State, mounted, toggle_event_type, handle_date_change, choose_agent, clear_all, read_on, change,
}
use x402guard.Dashboard.Audit.Table.Laws.{read_on-change}

-- What one use of a control makes of the filters.
pub data Chooses : Filters → Filters → Type 0 where
  toggles : (t : EventType) {f : Filters} → Chooses f (toggle_event_type t f)
  dates : (from until : Option Text) {f : Filters} → Chooses f (handle_date_change from until f)
  picks : (v : Text) {f : Filters} → Chooses f (choose_agent v f)
  clears : {f : Filters} → Chooses f (clear_all f)

-- The filters after any number of uses of the controls.
pub data Reached : Filters → Type 0 where
  start : (p : Page) → Reached (mounted p).filters
  chosen : {f g : Filters} → Reached f → Chooses f g → Reached g

Chooses-page_size : {f g : Filters} → Chooses f g → g.page_size ≡ f.page_size
unfolding toggle_event_type handle_date_change choose_agent clear_all
Chooses-page_size (toggles t) = refl
Chooses-page_size (dates from until) = refl
Chooses-page_size (picks v) = refl
Chooses-page_size clears = refl

Chooses-cursor_id : {f g : Filters} → Chooses f g → g.cursor_id ≡ none
unfolding toggle_event_type handle_date_change choose_agent clear_all
Chooses-cursor_id (toggles t) = refl
Chooses-cursor_id (dates from until) = refl
Chooses-cursor_id (picks v) = refl
Chooses-cursor_id clears = refl

Reached-cursor_id : {f : Filters} → Reached f → f.cursor_id ≡ none
unfolding mounted
Reached-cursor_id (start p) = refl
Reached-cursor_id (chosen h c) = Chooses-cursor_id c

Reached-page_size : {f : Filters} → Reached f → f.page_size ≡ some 25
unfolding mounted
Reached-page_size (start p) = refl
Reached-page_size (chosen h c) = Chooses-page_size c ∙ Reached-page_size h

-- Whatever filters the controls have led to: where the audit log's service answers from a table,
-- no selected row has an empty id and nothing is pending, the choice of these filters and then
-- Next, for as long as it can be pressed, read what the filters select of the table: every row
-- once, the newest first.
pub reads_every :
    (sv : Service) (rows : List Row) (db : Database) (f : Filters) (s : State) (fuel : ℕ)
    → Serves sv rows db
    → Reached f
    → All (λ r. is_empty r.id ≡ false) (selected sv f rows)
    → s.pending ≡ []
    → length (selected sv f rows) ≤ fuel
    → read_on fuel db (change db f s) ≡ selected sv f rows
reads_every sv rows db f s fuel serves reached ids idle enough =
    read_on-change sv rows db serves f
      (subst (λ o. 0 < get_or o 25) (sym (Reached-page_size reached)) (omega arith)) ids s fuel
      (ap present (Reached-cursor_id reached)) idle enough
