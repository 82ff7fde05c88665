-- ===== src/EventLog/Reads/Order.antt =====
-- What the rows of a lead are.
use mathlib.Core.List.{Permᴰ}
use mathlib.Core.List.Permᴰ
use salesforce_tiktok_crm.Base.{
  ℕ, ◌≤◌, String, ◌≡◌, refl, List, [], ◌∷◌, leb, leb→le, arith, Bool-cases, inl, inr, All, All-map,
}
use salesforce_tiktok_crm.Exec.Rules.{Run}
use salesforce_tiktok_crm.Redis.{Redis}
use salesforce_tiktok_crm.World.{LogRow, Outside, World}
use salesforce_tiktok_crm.World.Running.{query-Run}
use salesforce_tiktok_crm.EventLog.Reads.{
  rows_of_lead, insert_by_time, newest_first, find_by_lead_id,
}

-- Each row is no older than those after it.
abbrev pub IsNewestFirst : List LogRow → Type 0
IsNewestFirst [] = Unit
IsNewestFirst (r ∷ rs) = All (λ (s : LogRow). s.created_at ≤ r.created_at) rs × IsNewestFirst rs

NoLater : ℕ → List LogRow → Type 0
NoLater time rows = All (λ (s : LogRow). s.created_at ≤ time) rows

NoLater-insert :
    (time : ℕ) (row : LogRow) (rows : List LogRow)
    → row.created_at ≤ time
    → NoLater time rows
    → NoLater time (insert_by_time row rows)
unfolding NoLater insert_by_time
NoLater-insert time row [] le all = (le, tt)
NoLater-insert time row (r ∷ rs) le (le', all) =
    elim (Bool-cases (leb r.created_at row.created_at)) [
      | inl e ↦ rw e (le, (le', all))
      | inr e ↦ rw e (le', NoLater-insert time row rs le all)
    ]

insert_by_time-IsNewestFirst :
    (row : LogRow) (rows : List LogRow)
    → IsNewestFirst rows
    → IsNewestFirst (insert_by_time row rows)
unfolding insert_by_time NoLater
insert_by_time-IsNewestFirst row [] sorted = (tt, tt)
insert_by_time-IsNewestFirst row (r ∷ rs) (all, sorted) =
    elim (Bool-cases (leb r.created_at row.created_at)) [
      | inl e ↦
          let le = leb→le r.created_at row.created_at e in
          rw e ((le, All-map _ _ rs (λ s h. omega arith) all), (all, sorted))
      | inr e ↦ rw e (
        NoLater-insert r.created_at row rs (ground (arith, e)) all,
        insert_by_time-IsNewestFirst row rs sorted,
      )
    ]

newest_first-IsNewestFirst : (rows : List LogRow) → IsNewestFirst (newest_first rows)
unfolding newest_first
newest_first-IsNewestFirst [] = tt
newest_first-IsNewestFirst (r ∷ rs) =
    insert_by_time-IsNewestFirst r (newest_first rs) (newest_first-IsNewestFirst rs)

insert_by_time-Permᴰ :
    (row : LogRow) (rows : List LogRow) → Permᴰ (insert_by_time row rows) (row ∷ rows)
unfolding insert_by_time
insert_by_time-Permᴰ row [] = Permᴰ.refl _
insert_by_time-Permᴰ row (r ∷ rs) = elim (Bool-cases (leb r.created_at row.created_at)) [
  | inl e ↦ rw e (Permᴰ.refl _)
  | inr e ↦
      rw e (Permᴰ.trans (Permᴰ.cons refl (insert_by_time-Permᴰ row rs)) (Permᴰ.swap refl refl))
]

newest_first-Permᴰ : (rows : List LogRow) → Permᴰ (newest_first rows) rows
unfolding newest_first
newest_first-Permᴰ [] = Permᴰ.nil
newest_first-Permᴰ (r ∷ rs) =
    Permᴰ.trans (insert_by_time-Permᴰ r (newest_first rs)) (Permᴰ.cons refl (newest_first-Permᴰ rs))

module _ {R : Redis} (outside : Outside) where
  -- The rows that are found for a lead are the rows of the log with its id, in some order, and none
  -- is older than one that comes after it; the tables stay as they are, whatever Postgres answers.
  pub find_by_lead_id-IsNewestFirst :
      (lead_id : String) (w : World R)
      → Run
          (λ rows v.
            IsNewestFirst rows
            × Permᴰ rows (rows_of_lead lead_id w.tables.event_log)
            × (v.tables ≡ w.tables))
          (λ _ v. v.tables ≡ w.tables)
          (λ _. ⊥)
          (find_by_lead_id outside lead_id w)
  unfolding find_by_lead_id
  find_by_lead_id-IsNewestFirst lead_id w =
      let rows = rows_of_lead lead_id w.tables.event_log in
      query-Run _ _ _ outside (λ t. (newest_first (rows_of_lead lead_id t.event_log), t)) w
        (newest_first-IsNewestFirst rows, newest_first-Permᴰ rows, refl) (λ m. refl) (λ m. refl)
