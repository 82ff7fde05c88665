-- ===== src/Pipeline/Logging.antt =====
-- What an insert and an update of a status do to the statuses in the event log, for every fate of
-- the statement.
use salesforce_tiktok_crm.Base.{
  ℕ, suc, String, ◌≡◌, refl, ◌∙◌, ap, Option, none, some, List, ◌==◌, eq_refl, arith, Bool-cases,
  inl, inr, if◌then◌else◌,
}
use salesforce_tiktok_crm.Types.{TikTokApiResponse, EventLogStatus}
use salesforce_tiktok_crm.Exec.{Result, return}
use salesforce_tiktok_crm.Exec.Rules.{Run, Run-bind}
use salesforce_tiktok_crm.Redis.{Redis}
use salesforce_tiktok_crm.World.{
  LogRow, Outside, World, Fate, answered, refused, broken, query, run_statement,
}
use salesforce_tiktok_crm.EventLog.{
  InsertParams, on_log, new_row, find_row, insert_row, update_rows, updated, insert, update_status,
}
use salesforce_tiktok_crm.EventLog.Rows.{or_row, map_row, find_row-insert_row, find_row-update_rows}
use salesforce_tiktok_crm.Pipeline.Steps.{row_status, status_at, Logged, Untouched}

row_status-updated :
    (s : EventLogStatus) (resp : Option TikTokApiResponse) (e : Option String) (now : ℕ)
    (o : Option LogRow) (s₀ : EventLogStatus)
    → row_status o ≡ some s₀
    → row_status (map_row (updated s resp e now) o) ≡ some s
row_status-updated s resp e now (some r) s₀ h = refl
row_status-updated s resp e now none s₀ h = ground arith

-- An update keeps every event logged, and sets the status of its own.
status-update_rows :
    (s : EventLogStatus) (resp : Option TikTokApiResponse) (e : Option String) (now : ℕ)
    (id j : String) (rows : List LogRow) (s₀ : EventLogStatus)
    → row_status (find_row j rows) ≡ some s₀
    → row_status (find_row j (update_rows id (updated s resp e now) rows))
      ≡ some (if id == j then s else s₀)
status-update_rows s resp e now id j rows s₀ h =
    rw (find_row-update_rows id j (updated s resp e now) rows (λ r. refl))
      (elim (Bool-cases (id == j)) [
        | inl same ↦ rw same (row_status-updated s resp e now (find_row j rows) s₀ h)
        | inr differs ↦ rw differs h
      ])

row_status-or_row :
    (o other : Option LogRow) (s₀ : EventLogStatus)
    → row_status o ≡ some s₀
    → row_status (or_row o other) ≡ some s₀
row_status-or_row (some r) other s₀ h = h
row_status-or_row none other s₀ h = ground arith

status-insert_row :
    (j : String) (row : LogRow) (rows : List LogRow) (s₀ : EventLogStatus)
    → row_status (find_row j rows) ≡ some s₀
    → row_status (find_row j (insert_row row rows)) ≡ some s₀
status-insert_row j row rows s₀ h =
    rw (find_row-insert_row j row rows) (row_status-or_row (find_row j rows) _ s₀ h)

inserted :
    (row : LogRow) (o : Option LogRow)
    → (s : EventLogStatus) × (row_status (or_row o (some row)) ≡ some s)
inserted row none = (row.status, refl)
inserted row (some r) = (r.status, refl)

-- After an insert the event is in the log, with the new row or the one that was there.
status-inserted :
    (row : LogRow) (rows : List LogRow)
    → (s : EventLogStatus) × (row_status (find_row row.event_id (insert_row row rows)) ≡ some s)
status-inserted row rows =
    rw (find_row-insert_row row.event_id row rows, eq_refl row.event_id)
      (inserted row (find_row row.event_id rows))

module _ {R : Redis} where
  abbrev pub LogRun : {A : Type 0} → (World R → Type 0) → World R → Result A × World R → Type 0
  LogRun P w p =
      Run (λ _ w'. Untouched w w' × P w')
        (λ _ w'. Untouched w w' × ((id : String) → Logged id w → Logged id w')) (λ _. ⊥) p

  log_statement-LogRun :
      (outside : Outside) (f : List LogRow → List LogRow) (P : World R → Type 0) (w w' : World R)
      → Untouched w w'
      → w'.tables.event_log ≡ w.tables.event_log
      → ((id : String)
          → Logged id w
          → (s : EventLogStatus) × (row_status (find_row id (f w.tables.event_log)) ≡ some s))
      → ((t : World R) → t.tables.event_log ≡ f w.tables.event_log → P t)
      → LogRun P w (query outside (on_log f) w')
  unfolding query Run
  log_statement-LogRun outside f P w w' untouched same keeps made =
      by_fate (outside.statement w'.statements)
    where
      by_fate : (fate : Fate) → LogRun P w (run_statement fate (on_log f) w')
      by_fate answered = (untouched, made _ (ap f same))
      by_fate (refused m) = (untouched, λ id l. rw same l)
      by_fate (broken m) = (untouched, λ id l. rw same (keeps id l))

  pub update_status-LogRun :
      (outside : Outside) (id : String) (s : EventLogStatus) (resp : Option TikTokApiResponse)
      (e : Option String) (w : World R)
      → Logged id w
      → LogRun (λ w'. status_at id w' ≡ some s) w (update_status outside id s resp e w)
  unfolding update_status
  update_status-LogRun outside id s resp e w (s₀, h) =
      log_statement-LogRun outside _ _ w w (refl, refl) refl
        (λ j l. (_, status-update_rows s resp e w.now id j w.tables.event_log l.0 l.1))
        (λ t same.
          rw same (
            status-update_rows s resp e w.now id id w.tables.event_log s₀ h ∙ rw (eq_refl id) refl))

  return-LogRun :
      {A : Type 0} (P : World R → Type 0) (a : A) (w w' : World R)
      → Untouched w w' × P w'
      → LogRun P w (return a w')
  unfolding Run
  return-LogRun P a w w' p = p

  pub insert-LogRun :
      (outside : Outside) (params : InsertParams) (w : World R)
      → LogRun (λ w'. Logged params.event_id w') w (insert outside params w)
  unfolding insert
  insert-LogRun outside params w =
      Run-bind (λ _ w'. Untouched w w' × Logged params.event_id w') _ _ _ _ _ _
        (log_statement-LogRun outside (insert_row (new_row params (outside.uuid w.uuids) w.now))
          (Logged params.event_id) w (record w { uuids = suc w.uuids }) (refl, refl) refl
          (λ j l. (l.0, status-insert_row j _ w.tables.event_log l.0 l.1))
          (λ t same.
            rw same
              (status-inserted (new_row params (outside.uuid w.uuids) w.now) w.tables.event_log)))
        (λ _ w' p. return-LogRun (Logged params.event_id) _ w w' p)
