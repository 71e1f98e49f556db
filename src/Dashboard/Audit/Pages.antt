-- ===== src/Dashboard/Audit/Pages.antt =====
-- What a page of the audit log holds.
use native.Mathlib.Numerals.{add-one}
use x402guard.Base.{
  ltb→lt, ℕ, suc, ◌+◌, ◌≡◌, refl, ◌∙◌, sym, ap, subst, inl, inr, Bool, true, false, ◌&&◌, ◌||◌,
  ◌==◌, ltb, All, Bool-cases, some, none, List, [], ◌∷◌, ◌++◌, append-nil, length, take, keep,
  arith, if◌then◌else◌,
}
use x402guard.Base.Slices.{
  keep-keep, keep_same, keep_every, keep_none, keep-append, All-middle, All-map, All-keep,
  drop_last-take, take_all, length-take_more,
}
use x402guard.Js.Text.{Text, text, text_eq, is_empty}
use x402guard.Js.Text.Laws.{text_eq_iff}
use x402guard.Sdk.Errors.{ok}
use x402guard.Adapters.Openclaw.{present}
use x402guard.Dashboard.Audit.{
  Row, Filters, Page, Condition, or_group, Database, found, filter_conditions, cursor_filter,
  cursor_query, cursor_condition, cursor_conditions, page_query, page_of, page_or_error, size_of,
  fetch_audit_log,
}
use x402guard.Dashboard.Audit.Rest.{
  column, Service, holds, all_hold, is_behind, Follows, IsNewestFirst, Serves,
}

-- The page that should be shown of a list of rows.
abbrev pub first_page : ℕ → List Row → Page
first_page n rows = record { rows = take n rows; has_next_page = ltb n (length rows) }

page_of-take-suc : (n : ℕ) (rows : List Row) → page_of n (take (suc n) rows) ≡ first_page n rows
unfolding page_of
page_of-take-suc n rows = rw (length-take_more n rows) (elim (Bool-cases (ltb n (length rows))) [
  | inl more ↦ rw more (
      ap (λ l. record { rows = l; has_next_page = true })
        (drop_last-take n rows (ltb→lt n (length rows) more)))
  | inr end ↦ rw end (
      ap (λ l. record { rows = l; has_next_page = false })
        (take_all (suc n) rows (ground arith) ∙ sym (take_all n rows (ground arith))))
])

page_of-take : (n : ℕ) (rows : List Row) → page_of n (take (n + 1) rows) ≡ first_page n rows
page_of-take n rows = rw add-one (page_of-take-suc n rows)

present-some : (t : Text) → is_empty t ≡ false → present (some t) ≡ some t
present-some t full = rw full refl

behind_asym :
    (a b c d : ℕ) → (ltb a b || a == b && ltb c d) ≡ true → (ltb b a || b == a && ltb d c) ≡ false
behind_asym a b c d h = ground arith

behind_itself : (a c : ℕ) → (ltb a a || a == a && ltb c c) ≡ false
behind_itself a c = ground arith

text_eq_sym : (a b : Text) → text_eq a b ≡ false → text_eq b a ≡ false
text_eq_sym a b h = elim (Bool-cases (text_eq b a)) [
  | inl same ↦ cc (h, (text_eq_iff a b).1 (sym ((text_eq_iff b a).0 same)))
  | inr differ ↦ differ
]

-- The service reads the filter of a row's cursor as the rows behind it.
abbrev Reads : Service → Row → Type 0
Reads s r =
    (row : Row) → s.reads (cursor_filter r.created_at r.id) row ≡ is_behind s r.created_at r.id row

module _ (s : Service) where
  all_hold-append :
      (cs ds : List Condition) (row : Row)
      → all_hold s (cs ++ ds) row ≡ (all_hold s cs row && all_hold s ds row)
  unfolding all_hold
  all_hold-append [] ds row = refl
  all_hold-append (c ∷ cs) ds row = ground (arith, all_hold-append cs ds row)

  -- What stands behind a row in a sorted list is what comes after it.
  behind_before :
      (r : Row) (before after : List Row)
      → IsNewestFirst s (before ++ r ∷ after)
      → All (λ x. is_behind s r.created_at r.id x ≡ false) before
  behind_before r [] after h = tt
  behind_before r (x ∷ before) after (h, k) =
      let (later, _) = All-middle (Follows s x) before after r h in
      (
        behind_asym (s.instant r.created_at) (s.instant x.created_at) (s.rank r.id) (s.rank x.id)
            later,
        behind_before r before after k,
      )

  sorted_after :
      (r : Row) (before after : List Row)
      → IsNewestFirst s (before ++ r ∷ after)
      → All (Follows s r) after
  sorted_after r [] after (h, _) = h
  sorted_after r (x ∷ before) after (_, k) = sorted_after r before after k

  pub keep_behind :
      (r : Row) (before after : List Row)
      → IsNewestFirst s (before ++ r ∷ after)
      → keep (is_behind s r.created_at r.id) (before ++ r ∷ after) ≡ after
  unfolding keep
  keep_behind r before after h =
      keep-append (is_behind s r.created_at r.id) before (r ∷ after)
      ∙ rw (keep_none (is_behind s r.created_at r.id) before (behind_before r before after h)) (
          rw (behind_itself (s.instant r.created_at) (s.rank r.id)) (
            keep_every (is_behind s r.created_at r.id) after
              (All-map (Follows s r) (λ x p. p.0) after (sorted_after r before after h))))

  -- The row of an id that occurs once.
  keep_id :
      (r : Row) (before after : List Row)
      → IsNewestFirst s (before ++ r ∷ after)
      → keep (λ x. text_eq x.id r.id) (before ++ r ∷ after) ≡ r ∷ []
  unfolding keep
  keep_id r [] after (h, k) = rw ((text_eq_iff r.id r.id).1 refl) (
      ap (λ l. r ∷ l)
        (keep_none (λ x. text_eq x.id r.id) after (All-map (Follows s r) (λ x p. p.1) after h)))
  keep_id r (x ∷ before) after (h, k) =
      let (_, other) = All-middle (Follows s x) before after r h in
      rw (text_eq_sym r.id x.id other) (keep_id r before after k)

  -- What the filters select of the table.
  abbrev pub selected : Filters → List Row → List Row
  selected f = keep (all_hold s (filter_conditions f))

  keep-IsNewestFirst :
      (p : Row → Bool) (rows : List Row) → IsNewestFirst s rows → IsNewestFirst s (keep p rows)
  unfolding keep
  keep-IsNewestFirst p [] h = tt
  keep-IsNewestFirst p (x ∷ rows) (h, k) = elim (Bool-cases (p x)) [
    | inl yes_ ↦ rw yes_ (All-keep (Follows s x) p rows h, keep-IsNewestFirst p rows k)
    | inr no_ ↦ rw no_ (keep-IsNewestFirst p rows k)
  ]

  -- Where a selected row stands in the table.
  keep_split :
      (p : Row → Bool) (rows : List Row) (r : Row) (before after : List Row)
      → keep p rows ≡ before ++ r ∷ after
      → (b : List Row) × (a : List Row) × (rows ≡ b ++ r ∷ a)
  unfolding keep
  keep_split p [] r [] after e = cc
  keep_split p [] r (y ∷ before) after e = cc
  keep_split p (x ∷ rows) r before after e = elim (Bool-cases (p x)) [
    | inr dropped ↦
        let (b, a, g) =
          keep_split p rows r before after
            (ap (λ k. if k then x ∷ keep p rows else keep p rows) (sym dropped) ∙ e) in
        (x ∷ b, a, ap (λ l. x ∷ l) g)
    | inl kept ↦
        kept_split before (ap (λ k. if k then x ∷ keep p rows else keep p rows) (sym kept) ∙ e)
          (λ rest g. keep_split p rows r rest after g)
  ]
    where
      kept_split :
          (before : List Row)
          → x ∷ keep p rows ≡ before ++ r ∷ after
          → ((rest : List Row)
              → keep p rows ≡ rest ++ r ∷ after
              → (b : List Row) × (a : List Row) × (rows ≡ b ++ r ∷ a))
          → (b : List Row) × (a : List Row) × (x ∷ rows ≡ b ++ r ∷ a)
      kept_split [] g later = ([], rows, cc)
      kept_split (y ∷ rest) g later =
          let (b, a, k) = later rest (cc) in (x ∷ b, a, ap (λ l. x ∷ l) k)

  module _ (rows : List Row) (db : Database) (serves : Serves s rows db) (f : Filters) where
    ask :
        (cursor : List Condition) (view : List Row)
        → keep (all_hold s (filter_conditions f ++ cursor)) rows ≡ view
        → page_or_error (size_of f) (db.select (page_query f cursor))
          ≡ ok (first_page (size_of f) view)
    ask cursor view e =
        ap (page_or_error (size_of f)) (
          serves.select (page_query f cursor) (size_of f + 1) refl refl refl
          ∙ ap (λ l. found (some (take (size_of f + 1) l))) e)
        ∙ ap ok (page_of-take (size_of f) view)

    -- No cursor.
    pub fetch_first :
        present f.cursor_id ≡ none
        → fetch_audit_log db f ≡ ok (first_page (size_of f) (selected f rows))
    unfolding fetch_audit_log cursor_condition
    fetch_first e =
        ap (λ c. page_or_error (size_of f) (db.select (page_query f (cursor_condition db c)))) e
        ∙ ask [] (selected f rows)
            (ap (λ cs. keep (all_hold s cs) rows) (append-nil (filter_conditions f)))

    find_cursor :
        (r : Row) (b a : List Row)
        → rows ≡ b ++ r ∷ a
        → keep (all_hold s (cursor_query r.id).conditions) rows ≡ r ∷ []
    unfolding all_hold holds column text text_eq
    find_cursor r b a e =
        keep_same _ (λ x. text_eq x.id r.id) rows (λ x. ground arith)
        ∙ (ap (keep (λ x. text_eq x.id r.id)) e
            ∙ keep_id r b a (subst (IsNewestFirst s) e serves.sorted))

    behind_cursor :
        (r : Row) (before after b a : List Row)
        → rows ≡ b ++ r ∷ a
        → selected f rows ≡ before ++ r ∷ after
        → keep
            (all_hold s (filter_conditions f ++ or_group (cursor_filter r.created_at r.id) ∷ []))
            rows
          ≡ after
    unfolding all_hold holds
    behind_cursor r before after b a found_at place =
        keep_same _ _ rows
          (all_hold-append (filter_conditions f) (or_group (cursor_filter r.created_at r.id) ∷ []))
        ∙ (keep-keep (all_hold s (filter_conditions f))
              (all_hold s (or_group (cursor_filter r.created_at r.id) ∷ [])) rows
            ∙ (keep_same _ (is_behind s r.created_at r.id) (selected f rows) (λ x. ground (
              arith,
              All-middle (Reads s) b a r (subst (All (Reads s)) found_at serves.reads) x,
            ))
                ∙ (ap (keep (is_behind s r.created_at r.id)) place
                    ∙ keep_behind r before after (
                        subst (IsNewestFirst s) place (
                          keep-IsNewestFirst (all_hold s (filter_conditions f)) rows
                            serves.sorted)))))

    -- Where the service answers from a table sorted by `created_at` and then `id`, and the cursor is
    -- the id, not empty, of a row that the filters select: `fetchAuditLog` returns the first page of
    -- the selected rows behind that row, and a next page is announced exactly where more are left.
    pub fetch_after :
        (r : Row) (before after : List Row)
        → is_empty r.id ≡ false
        → f.cursor_id ≡ some r.id
        → selected f rows ≡ before ++ r ∷ after
        → fetch_audit_log db f ≡ ok (first_page (size_of f) after)
    unfolding fetch_audit_log cursor_condition
    fetch_after r before after full e place =
        let (b, a, where_) =
          keep_split (all_hold s (filter_conditions f)) rows r before after place in
        ap (λ c. page_or_error (size_of f) (db.select (page_query f (cursor_condition db c))))
          (ap present e ∙ present-some r.id full)
        ∙ (ap (λ x. page_or_error (size_of f) (db.select (page_query f (cursor_conditions r.id x))))
              (serves.single (cursor_query r.id) r refl (find_cursor r b a where_))
            ∙ ask (or_group (cursor_filter r.created_at r.id) ∷ []) after
                (behind_cursor r before after b a where_ place))
