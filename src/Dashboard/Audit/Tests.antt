-- ===== src/Dashboard/Audit/Tests.antt =====
-- The witnesses of the audit log's properties: a table of thirty rows.
use x402guard.Base.{
  ap, ℕ, zero, suc, ◌<◌, ◌≤◌, ◌≡◌, refl, ◌&&◌, ◌||◌, ◌==◌, ltb, true, false, All, Option, none,
  some, List, [], ◌∷◌, take, drop, keep, get_or, arith,
}
use x402guard.Js.Text.{Text, text, is_empty, text_eq}
use x402guard.Js.Json.{Json}
use x402guard.Dashboard.Audit.{
  ok, fetch_audit_log, Row, Filters, Database, found, cursor_filter, filter_conditions,
}
use x402guard.Dashboard.Audit.Rest.{Service, all_hold, is_behind, Follows, IsNewestFirst, Serves}
use x402guard.Dashboard.Audit.Pages.{fetch_after, first_page, selected}
use x402guard.Dashboard.Audit.Table.{
  next_enabled, click_next, click_previous, State, mounted, read_on, change,
}
use x402guard.Dashboard.Audit.Table.Laws.{previous_skips}
use x402guard.Dashboard.Agent
use x402guard.Dashboard.Audit.Logs.{LogServer, LogPage, audit_log_page}
use x402guard.Dashboard.Audit.Logs.Reads.{audit_log_page_reads}
use x402guard.Dashboard.Audit.Table.Reached.{start, reads_every}

abbrev nth_row : ℕ → Row
nth_row n = record {
  id = n ∷ [];
  agent_id = none;
  session_key_id = none;
  event_type = text "agent_created";
  metadata = Json.null;
  created_at = n ∷ [];
}

abbrev rows_below : ℕ → List Row
rows_below zero = []
rows_below (suc n) = nth_row n ∷ rows_below n

abbrev first_character : Text → ℕ
first_character [] = 0
first_character (c ∷ _) = c

abbrev one_a_page : Filters
one_a_page = record {
  agent_id = none;
  event_types = none;
  from_date = none;
  to_date = none;
  cursor_id = none;
  page_size = some 1;
}

abbrev clock : Service
clock = record { instant = first_character; rank = first_character; reads = λ f row. false }

abbrev service : Service
service = record {
  instant = first_character;
  rank = first_character;
  reads = λ f row. is_behind clock (take 1 (drop 14 f)) (take 1 (drop 42 f)) row;
}

abbrev first_row : List Row → Option Row
first_row [] = none
first_row (r ∷ _) = some r

abbrev serving : List Row → Database
serving rows = record {
  select = λ q. found (some (take (get_or q.limit 0) (keep (all_hold service q.conditions) rows)));
  single = λ q. first_row (keep (all_hold service q.conditions) rows);
}

lower_behind : (m n : ℕ) → m < n → (ltb m n || m == n && ltb m n) ≡ true
lower_behind m n h = ground arith

lower_other : (m n : ℕ) → m < n → text_eq (m ∷ []) (n ∷ []) ≡ false
unfolding text_eq
lower_other m n h = ground arith

below-Follows : (n m : ℕ) → m ≤ n → All (Follows service (nth_row n)) (rows_below m)
unfolding text_eq
below-Follows n zero h = tt
below-Follows n (suc m) h =
    ((lower_behind m n h, lower_other m n h), below-Follows n m (omega arith))

below-IsNewestFirst : (n : ℕ) → IsNewestFirst service (rows_below n)
below-IsNewestFirst zero = tt
below-IsNewestFirst (suc n) = (below-Follows n n (omega arith), below-IsNewestFirst n)

below-reads :
    (n : ℕ)
    → All
        (λ r.
          (row : Row)
          → service.reads (cursor_filter r.created_at r.id) row
            ≡ is_behind service r.created_at r.id row)
        (rows_below n)
unfolding cursor_filter take drop text
below-reads zero = tt
below-reads (suc n) = (λ row. refl, below-reads n)

serves : (n : ℕ) → Serves service (rows_below n) (serving (rows_below n))
serves n = record {
  sorted = below-IsNewestFirst n;
  select = λ q k t o e.
      ap
        (λ l.
          found (some (take (get_or l 0) (keep (all_hold service q.conditions) (rows_below n)))))
        e;
  single = λ q r t e. ap first_row e;
  reads = below-reads n;
}

selected_all :
    (n : ℕ) → selected service (mounted (first_page 25 [])).filters (rows_below n) ≡ rows_below n
unfolding mounted filter_conditions keep all_hold
selected_all zero = refl
selected_all (suc n) = ap (λ l. nth_row n ∷ l) (selected_all n)

below-ids : (n : ℕ) → All (λ r. is_empty r.id ≡ false) (rows_below n)
below-ids zero = tt
below-ids (suc n) = (refl, below-ids n)

-- Thirty rows are read on two pages.
reads_every_example :
    read_on 30 (serving (rows_below 30)) (
      change
        (serving (rows_below 30))
        (mounted (first_page 25 [])).filters
        (mounted (first_page 25 [])))
    ≡ selected service (mounted (first_page 25 [])).filters (rows_below 30)
unfolding mounted filter_conditions keep all_hold
reads_every_example =
    reads_every service (rows_below 30) (serving (rows_below 30))
      (mounted (first_page 25 [])).filters (mounted (first_page 25 [])) 30 (serves 30)
      (start (first_page 25 [])) (below-ids 30) refl (omega arith)

abbrev two_rows : State
two_rows = record (mounted (first_page 1 (rows_below 2))) { filters = one_a_page }

previous_skips_example :
    (click_previous (serving (rows_below 2)) (click_next (serving (rows_below 2)) two_rows)).page
    ≡ first_page 1 (nth_row 0 ∷ [])
unfolding mounted filter_conditions keep all_hold
previous_skips_example =
    previous_skips service (rows_below 2) (serving (rows_below 2)) (serves 2) one_a_page
      (omega arith) (below-ids 2) (nth_row 1) (nth_row 0 ∷ []) two_rows
      (record {
        before = [];
        place = refl;
        idle = refl;
        loaded = refl;
        same_filters = refl;
        shows = refl;
      })
      (omega arith)

abbrev after_first : Filters
after_first = record {
  agent_id = none;
  event_types = none;
  from_date = none;
  to_date = none;
  cursor_id = some (29 ∷ []);
  page_size = some 10;
}

fetch_after_example :
    fetch_audit_log (serving (rows_below 30)) after_first ≡ ok (first_page 10 (rows_below 29))
unfolding filter_conditions keep all_hold
fetch_after_example =
    fetch_after service (rows_below 30) (serving (rows_below 30)) (serves 30) after_first
      (nth_row 29) [] (rows_below 29) refl refl refl

-- The server sees nothing, as the policies have it; the answer about the agents arrives first.
abbrev log_server : LogServer
log_server = record {
  server_db = serving (rows_below 0);
  agents_found = Agent.found (some []);
  logs_arrival = 2;
  agents_arrival = 1;
}

audit_log_page_reads_example :
    (page : LogPage) × (audit_log_page log_server ≡ ok page)
    × (page.agents ≡ [])
    × (page.table.page ≡ first_page 25 [])
    × (next_enabled page.table ≡ ltb 25 0)
    × (read_on 30
          (serving (rows_below 30))
          (change (serving (rows_below 30)) (mounted (first_page 25 [])).filters page.table)
        ≡ selected service (mounted (first_page 25 [])).filters (rows_below 30))
unfolding mounted filter_conditions keep all_hold
audit_log_page_reads_example =
    audit_log_page_reads service (rows_below 0) (rows_below 30) log_server (serving (rows_below 30))
      [] (mounted (first_page 25 [])).filters 30 (serves 0) (serves 30) refl
      (start (first_page 25 [])) (below-ids 30) (omega arith)
