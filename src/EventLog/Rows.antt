-- ===== src/EventLog/Rows.antt =====
-- The table of events under its statements.
use salesforce_tiktok_crm.Base.{
  String, ◌≡◌, refl, Option, none, some, List, [], ◌∷◌, ◌++◌, ◌==◌, eq_iff, arith, Option-cases,
  Bool-cases, inl, inr, if◌then◌else◌,
}
use salesforce_tiktok_crm.World.{LogRow}
use salesforce_tiktok_crm.EventLog.{find_row, insert_row, update_rows}

abbrev pub or_row : Option LogRow → Option LogRow → Option LogRow
or_row none other = other
or_row (some r) other = some r

abbrev pub map_row : (LogRow → LogRow) → Option LogRow → Option LogRow
map_row f none = none
map_row f (some r) = some (f r)

-- the row, if it has the id
abbrev pub row_at : LogRow → String → Option LogRow
row_at row id = if row.event_id == id then some row else none

or_row-none : (o : Option LogRow) → o ≡ or_row o none
or_row-none none = refl
or_row-none (some r) = refl

find_row-append :
    (id : String) (rows : List LogRow) (row : LogRow)
    → find_row id (rows ++ row ∷ []) ≡ or_row (find_row id rows) (row_at row id)
unfolding find_row
find_row-append id [] row = refl
find_row-append id (r ∷ rs) row = ground (arith, find_row-append id rs row)

-- An insert is seen under its event id unless a row with that id is there, which then stays.
pub find_row-insert_row :
    (id : String) (row : LogRow) (rows : List LogRow)
    → find_row id (insert_row row rows) ≡ or_row (find_row id rows) (row_at row id)
unfolding insert_row
find_row-insert_row id row rows = elim (Option-cases (find_row row.event_id rows)) [
  | inl missing ↦ rw missing (find_row-append id rows row)
  | inr (old, found) ↦ elim (Bool-cases (row.event_id == id)) [
    | inl same ↦
        let e : row.event_id ≡ id = (eq_iff _ _).0 same in
        let found' : find_row id rows ≡ some old = rw e at found in rw (found, found') refl
    | inr differs ↦ rw (found, differs) (or_row-none (find_row id rows))
  ]
]

-- An update changes the row of its event id and no other.
pub find_row-update_rows :
    (id j : String) (f : LogRow → LogRow) (rows : List LogRow)
    → ((r : LogRow) → (f r).event_id ≡ r.event_id)
    → find_row j (update_rows id f rows)
      ≡ (if id == j then map_row f (find_row j rows) else find_row j rows)
unfolding find_row update_rows
find_row-update_rows id j f [] keeps = ground arith
find_row-update_rows id j f (r ∷ rs) keeps = ground (
  arith,
  find_row-update_rows id j f rs keeps,
  keeps r,
  eq_iff r.event_id id,
  eq_iff r.event_id j,
  eq_iff id j,
)
