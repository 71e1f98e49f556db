-- ===== src/Dashboard/Audit/Table.antt =====
-- dashboard/src/components/audit/AuditLogTable.tsx and AuditLogFilters.tsx: the state of the audit
-- log's table and what its controls do.
pub mod Clicks
pub mod Laws
pub mod Reached
use x402guard.Base.{
  ℕ, zero, suc, Bool, true, false, not, ◌&&◌, ◌||◌, Option, some, none, List, [], ◌∷◌, ◌++◌, any,
  keep, last, drop_last, if◌then◌else◌, get_or,
}
use x402guard.Js.Text.{Text, text, text_eq, is_some}
use x402guard.Sdk.Errors.{Result, ok, throw}
use x402guard.Adapters.Openclaw.{present}
use x402guard.Dashboard.Audit.{EventType, event_name, Filters, Row, Page, Database, fetch_audit_log}

-- The state hooks, and the fetches that have not answered yet.
pub record State : Type 0 where
  pub filters : Filters
  pub page : Page
  pub cursor_stack : List Text
  pub is_loading : Bool
  pub pending : List Filters

-- The state of a table that was just mounted.
unfoldable pub mounted : Page → State
mounted initial_data = record {
  filters = record {
    agent_id = none;
    event_types = none;
    from_date = none;
    to_date = none;
    cursor_id = none;
    page_size = some 25;
  };
  page = initial_data;
  cursor_stack = [];
  is_loading = false;
  pending = [];
}

-- `refetch`, up to the answer
unfoldable pub refetch : Filters → State → State
refetch f s = record s { is_loading = true; pending = s.pending ++ f ∷ [] }

abbrev pub shown : Result Page → Page → Page
shown (ok page) old = page
shown (throw _) old = old

-- `refetch`, from the answer on: an error leaves the rows as they are.
unfoldable pub arrive : Database → Filters → List Filters → State → State
arrive db f others s = record s {
  page = shown (fetch_audit_log db f) s.page;
  is_loading = false;
  pending = others;
}

-- `handleFilterChange`
unfoldable pub handle_filter_change : Filters → State → State
unfolding refetch
handle_filter_change f s = refetch f (record s { filters = f; cursor_stack = [] })

abbrev pub with_cursor : Option Text → Filters → Filters
with_cursor cursor f = record f { cursor_id = cursor }

abbrev pub first_id : List Row → List Text
first_id [] = []
first_id (r ∷ _) = r.id ∷ []

abbrev pub next_after : Option Row → State → State
next_after none s = s
next_after (some r) s =
    refetch (with_cursor (some r.id) s.filters)
      (record s { cursor_stack = s.cursor_stack ++ first_id s.page.rows })

-- `handleNext`
unfoldable pub handle_next : State → State
unfolding refetch
handle_next s = next_after (last s.page.rows) s

-- `handlePrevious`
unfoldable pub handle_previous : State → State
unfolding refetch drop_last
handle_previous s =
    refetch (with_cursor (last s.cursor_stack) s.filters)
      (record s { cursor_stack = drop_last s.cursor_stack })

-- The oldest fetch that waits is answered.
abbrev pub answer : Database → List Filters → State → State
answer db [] s = s
answer db (f ∷ others) s = arrive db f others s

-- A click and the answer to it.
abbrev pub click_next : Database → State → State
click_next db s = let t = handle_next s in answer db t.pending t

abbrev pub click_previous : Database → State → State
click_previous db s = let t = handle_previous s in answer db t.pending t

-- A choice of filters and the answer to it.
abbrev pub change : Database → Filters → State → State
change db f s = let t = handle_filter_change f s in answer db t.pending t

-- The buttons that can be pressed.
unfoldable pub next_enabled : State → Bool
next_enabled s = s.page.has_next_page && not s.is_loading

unfoldable pub previous_enabled : State → Bool
previous_enabled s = is_some (last s.cursor_stack) && not s.is_loading

abbrev same_type : EventType → EventType → Bool
same_type a b = text_eq (event_name a) (event_name b)

abbrev types_or_none : List EventType → Option (List EventType)
types_or_none [] = none
types_or_none (t ∷ ts) = some (t ∷ ts)

-- `toggleEventType`: the filters that the table gets.
unfoldable pub toggle_event_type : EventType → Filters → Filters
toggle_event_type t f =
    let current = get_or f.event_types [] in
    record f {
      event_types = types_or_none (
          if any (same_type t) current
          then keep (λ u. not (same_type u t)) current
          else current ++ t ∷ []);
      cursor_id = none;
    }

-- `handleDateChange`, with the ISO texts of the range.
unfoldable pub handle_date_change : Option Text → Option Text → Filters → Filters
handle_date_change from until f = record f { from_date = from; to_date = until; cursor_id = none }

-- The choice of an agent.
unfoldable pub choose_agent : Text → Filters → Filters
choose_agent v f = record f {
  agent_id = if text_eq v (text "__all__") then none else some v;
  cursor_id = none;
}

-- `clearAll`
unfoldable pub clear_all : Filters → Filters
clear_all f = record {
  agent_id = none;
  event_types = none;
  from_date = none;
  to_date = none;
  cursor_id = none;
  page_size = f.page_size;
}

-- `hasActiveFilters`
unfoldable pub has_active_filters : Filters → Bool
has_active_filters f =
    is_some (present f.agent_id)
    || is_some (types_or_none (get_or f.event_types []))
    || is_some (present f.from_date)

-- The rows that are read by pressing Next for as long as it can be pressed, `fuel` times at most.
unfoldable pub read_on : ℕ → Database → State → List Row
read_on zero db s = s.page.rows
read_on (suc fuel) db s =
    let later = read_on fuel db (click_next db s) in
    if next_enabled s then s.page.rows ++ later else s.page.rows
