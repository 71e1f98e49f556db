-- ===== src/Dashboard/Audit/Rest.antt =====
-- What the service behind dashboard/src/lib/audit-queries.ts documents of a query: the conditions
-- select rows of the table, the orders sort them, and the limit cuts them off.
use x402guard.Base.{
  ℕ, ◌≡◌, Bool, true, false, ◌&&◌, ◌||◌, ◌==◌, ltb, leb, any, All, Option, some, none, List, [],
  ◌∷◌, take, keep, if◌then◌else◌,
}
use x402guard.Js.Text.{Text, text, text_eq}
use x402guard.Dashboard.Audit.{
  Row, Condition, eq, gte, lte, is_in, or_group, Query, Database, found, newest_first,
  cursor_filter,
}

-- The instant of a timestamp, the place of an id in their order, and how the service reads a filter
-- in the syntax of PostgREST.
pub record Service : Type 0 where
  pub instant : Text → ℕ
  pub rank : Text → ℕ
  pub reads : Text → Row → Bool

-- The columns that the queries name.
unfoldable pub column : Text → Row → Option Text
column name row =
    if text_eq name (text "id")
    then some row.id
    else (if text_eq name (text "agent_id")
        then row.agent_id
        else (if text_eq name (text "event_type")
            then some row.event_type
            else (if text_eq name (text "created_at") then some row.created_at else none)))

abbrev pub test : (Text → Bool) → Option Text → Bool
test p none = false
test p (some v) = p v

module _ (s : Service) where
  unfoldable pub holds : Condition → Row → Bool
  unfolding column
  holds (eq name v) row = test (λ w. text_eq w v) (column name row)
  holds (gte name v) row = test (λ w. leb (s.instant v) (s.instant w)) (column name row)
  holds (lte name v) row = test (λ w. leb (s.instant w) (s.instant v)) (column name row)
  holds (is_in name vs) row = test (λ w. any (text_eq w) vs) (column name row)
  holds (or_group f) row = s.reads f row

  unfoldable pub all_hold : List Condition → Row → Bool
  all_hold [] row = true
  all_hold (c ∷ cs) row = holds c row && all_hold cs row

  -- A row stands behind a place in the order: it is older, or as old and of a lower id.
  abbrev pub is_behind : Text → Text → Row → Bool
  is_behind created_at id row =
      ltb (s.instant row.created_at) (s.instant created_at)
      || s.instant row.created_at == s.instant created_at && ltb (s.rank row.id) (s.rank id)

  abbrev pub Follows : Row → Row → Type 0
  Follows r later = (is_behind r.created_at r.id later ≡ true) × (text_eq later.id r.id ≡ false)

  -- The newest row first, and no id twice.
  abbrev pub IsNewestFirst : List Row → Type 0
  IsNewestFirst [] = Unit
  IsNewestFirst (r ∷ rows) = All (Follows r) rows × IsNewestFirst rows

  -- The database answers from a table, given in the order of the queries.
  pub record Serves (rows : List Row) (db : Database) : Type 0 where
    pub sorted : IsNewestFirst rows
    pub select :
        (q : Query) (n : ℕ)
        → q.table ≡ text "audit_log"
        → q.orders ≡ newest_first
        → q.limit ≡ some n
        → db.select q ≡ found (some (take n (keep (all_hold q.conditions) rows)))
    pub single :
        (q : Query) (r : Row)
        → q.table ≡ text "audit_log"
        → keep (all_hold q.conditions) rows ≡ r ∷ []
        → db.single q ≡ some r
    pub reads :
        All
          (λ r.
            (row : Row)
            → s.reads (cursor_filter r.created_at r.id) row ≡ is_behind r.created_at r.id row)
          rows
