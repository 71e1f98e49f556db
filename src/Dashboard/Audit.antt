-- ===== src/Dashboard/Audit.antt =====
-- dashboard/src/lib/audit-queries.ts: the queries of the audit log, a page at a time.
pub mod Rest
pub mod Pages
pub mod Table
pub mod Logs
mod Tests
use x402guard.Base.{
  ℕ, ◌+◌, Bool, true, false, Option, some, none, List, [], ◌∷◌, ◌++◌, map, length, get_or, or_else,
  ltb, drop_last, if◌then◌else◌,
}
use x402guard.Js.Text.{Text, text, is_empty}
use x402guard.Js.Json.{Json}
use x402guard.Sdk.Errors.{error, Result, ok, throw}
use x402guard.Adapters.Openclaw.{present}

-- `AuditEventType`
pub data EventType : Type 0 where
  proxy_request_received proxy_request_forwarded proxy_request_failed guardrail_violation
        session_key_created session_key_used session_key_revoked all_session_keys_revoked
        agent_created agent_deactivated solana_vault_queried solana_withdraw_submitted
        solana_withdraw_confirmed solana_withdraw_failed :
      EventType

unfoldable pub event_name : EventType → Text
event_name proxy_request_received = text "proxy_request_received"
event_name proxy_request_forwarded = text "proxy_request_forwarded"
event_name proxy_request_failed = text "proxy_request_failed"
event_name guardrail_violation = text "guardrail_violation"
event_name session_key_created = text "session_key_created"
event_name session_key_used = text "session_key_used"
event_name session_key_revoked = text "session_key_revoked"
event_name all_session_keys_revoked = text "all_session_keys_revoked"
event_name agent_created = text "agent_created"
event_name agent_deactivated = text "agent_deactivated"
event_name solana_vault_queried = text "solana_vault_queried"
event_name solana_withdraw_submitted = text "solana_withdraw_submitted"
event_name solana_withdraw_confirmed = text "solana_withdraw_confirmed"
event_name solana_withdraw_failed = text "solana_withdraw_failed"

-- `ALL_EVENT_TYPES`
abbrev pub all_event_types : List EventType
all_event_types =
    proxy_request_received ∷ proxy_request_forwarded ∷ proxy_request_failed ∷ guardrail_violation
    ∷ session_key_created ∷ session_key_used ∷ session_key_revoked ∷ all_session_keys_revoked
    ∷ agent_created ∷ agent_deactivated ∷ solana_vault_queried ∷ solana_withdraw_submitted
    ∷ solana_withdraw_confirmed ∷ solana_withdraw_failed ∷ []

-- `AuditLogFilters`
pub record Filters : Type 0 where
  pub agent_id : Option Text
  pub event_types : Option (List EventType)
  pub from_date : Option Text
  pub to_date : Option Text
  pub cursor_id : Option Text
  pub page_size : Option ℕ

-- `AuditRow`
pub record Row : Type 0 where
  pub id : Text
  pub agent_id : Option Text
  pub session_key_id : Option Text
  pub event_type : Text
  pub metadata : Json
  pub created_at : Text

-- `AuditPage`
pub record Page : Type 0 where
  pub rows : List Row
  pub has_next_page : Bool

-- A condition that the query builder of the library supabase adds; `or_group` is a filter in the
-- syntax of PostgREST.
pub data Condition : Type 0 where
  eq gte lte : Text → Text → Condition
  is_in : Text → List Text → Condition
  or_group : Text → Condition

pub record Query : Type 0 where
  pub table : Text
  pub conditions : List Condition
  pub orders : List (Text × Bool)
  pub limit : Option ℕ

-- What supabase answers: the rows (`none` for `null`), or the message of an error; and for a query
-- of a single row that row, or `none`.
pub data Found : Type 0 where
  found : Option (List Row) → Found
  problem : Text → Found

pub record Database : Type 0 where
  pub select : Query → Found
  pub single : Query → Option Row

abbrev pub condition_if : Option Text → (Text → Condition) → List Condition
condition_if none c = []
condition_if (some v) c = c v ∷ []

abbrev pub types_condition : Option (List EventType) → List Condition
types_condition none = []
types_condition (some []) = []
types_condition (some (t ∷ ts)) = is_in (text "event_type") (map event_name (t ∷ ts)) ∷ []

-- The conditions of the filters, before that of the cursor.
unfoldable pub filter_conditions : Filters → List Condition
filter_conditions f =
    condition_if (present f.agent_id) (eq (text "agent_id"))
    ++ (types_condition f.event_types
        ++ (condition_if (present f.from_date) (gte (text "created_at"))
            ++ condition_if (present f.to_date) (lte (text "created_at"))))

-- The rows after a cursor: older, or as old and with a smaller id.
unfoldable pub cursor_filter : Text → Text → Text
cursor_filter created_at id =
    text "created_at.lt."
    ++ (created_at
        ++ (text ",and(created_at.eq." ++ (created_at ++ (text ",id.lt." ++ (id ++ text ")")))))

abbrev pub newest_first : List (Text × Bool)
newest_first = (text "created_at", false) ∷ (text "id", false) ∷ []

abbrev pub cursor_query : Text → Query
cursor_query id = record {
  table = text "audit_log";
  conditions = eq (text "id") id ∷ [];
  orders = [];
  limit = none;
}

abbrev pub cursor_conditions : Text → Option Row → List Condition
cursor_conditions id none = []
cursor_conditions id (some row) = or_group (cursor_filter row.created_at id) ∷ []

-- The condition of the cursor; it is left out where its row is not found.
unfoldable pub cursor_condition : Database → Option Text → List Condition
cursor_condition db none = []
cursor_condition db (some id) = cursor_conditions id (db.single (cursor_query id))

abbrev pub size_of : Filters → ℕ
size_of f = get_or f.page_size 25

abbrev pub page_query : Filters → List Condition → Query
page_query f cursor = record {
  table = text "audit_log";
  conditions = filter_conditions f ++ cursor;
  orders = newest_first;
  limit = some (size_of f + 1);
}

-- One row more than a page was asked for: where it came, there is a next page.
unfoldable pub page_of : ℕ → List Row → Page
unfolding drop_last
page_of size rows =
    if ltb size (length rows)
    then record { rows = drop_last rows; has_next_page = true }
    else record { rows = rows; has_next_page = false }

abbrev pub page_or_error : ℕ → Found → Result Page
page_or_error size (found rows) = ok (page_of size (get_or rows []))
page_or_error size (problem m) = throw (error (text "Audit log query failed: " ++ m))

-- `fetchAuditLog`
unfoldable pub fetch_audit_log : Database → Filters → Result Page
unfolding page_of cursor_condition
fetch_audit_log db f =
    page_or_error (size_of f) (db.select (page_query f (cursor_condition db (present f.cursor_id))))
