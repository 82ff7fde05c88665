-- ===== src/System/Logged.antt =====
-- The events that the log knows, under the statements of the program.
use salesforce_tiktok_crm.Base.{
  ℕ, String, ◌≡◌, refl, ap, ◌∙◌, Option, none, some, List, [], ◌∷◌, ◌==◌, eq_iff, true, Bool-cases,
  inl, inr, All, All-map,
}
use salesforce_tiktok_crm.Types.{
  CanonicalEvent, TikTokEventsPayload, TikTokApiResponse, EventLogStatus,
}
use salesforce_tiktok_crm.Types.Auth.{StoredToken}
use salesforce_tiktok_crm.Auth.TokenTable.{upsert_token}
use salesforce_tiktok_crm.World.{Tables, LogRow}
use salesforce_tiktok_crm.EventLog.{find_row, insert_row, update_rows, updated}
use salesforce_tiktok_crm.EventLog.Rows.{or_row, row_at, find_row-insert_row, find_row-update_rows}
use salesforce_tiktok_crm.Queue.{payload_ids}
use salesforce_tiktok_crm.Pipeline.{Setup, payload_of}
use salesforce_tiktok_crm.Transformer.Payload.{event_ids, event_ids-build_payload}

abbrev pub HasRow : List LogRow → String → Type 0
HasRow rows id = (r : LogRow) × (find_row id rows ≡ some r)

-- Every event of the payload has a row in the log.
abbrev pub InLog : TikTokEventsPayload → List LogRow → Type 0
InLog payload rows = All (HasRow rows) (payload_ids payload)

pub or_row-found : (a b : Option LogRow) (r : LogRow) → a ≡ some r → or_row a b ≡ some r
or_row-found a b r h = rw h refl

either_row : (a : Option LogRow) (row : LogRow) → (r : LogRow) × (or_row a (some row) ≡ some r)
either_row none row = (row, refl)
either_row (some r) row = (r, refl)

pub insert_row-HasRow :
    (row : LogRow) (rows : List LogRow) (id : String)
    → HasRow rows id
    → HasRow (insert_row row rows) id
insert_row-HasRow row rows id (r, h) =
    (r, find_row-insert_row id row rows ∙ or_row-found _ (row_at row id) r h)

-- also where the insert did nothing
pub inserted-HasRow :
    (row : LogRow) (rows : List LogRow) → HasRow (insert_row row rows) row.event_id
inserted-HasRow row rows =
    let same : (row.event_id == row.event_id) ≡ true = (eq_iff row.event_id row.event_id).1 refl in
    let own : row_at row row.event_id ≡ some row = rw same refl in
    let found = find_row-insert_row row.event_id row rows in
    let (r, h) = either_row (find_row row.event_id rows) row in
    (r, found ∙ ap (or_row (find_row row.event_id rows)) own ∙ h)

pub update_rows-HasRow :
    (j : String) (status : EventLogStatus) (response : Option TikTokApiResponse)
    (error : Option String) (now : ℕ) (rows : List LogRow) (id : String)
    → HasRow rows id
    → HasRow (update_rows j (updated status response error now) rows) id
update_rows-HasRow j status response error now rows id (r, h) =
    let f = updated status response error now in
    let found = find_row-update_rows j id f rows (λ r. refl) in
    elim (Bool-cases (j == id)) [
      | inl e ↦
          let there : find_row id (update_rows j f rows) ≡ some (f r) = found ∙ rw (e, h) refl in
          (f r, there)
      | inr e ↦
          let there : find_row id (update_rows j f rows) ≡ some r = found ∙ rw (e, h) refl in
          (r, there)
    ]

payload_ids-event_ids : (p : TikTokEventsPayload) → payload_ids p ≡ event_ids p
unfolding event_ids
payload_ids-event_ids p = refl

-- the pipeline's payload has one event
pub payload_of-InLog :
    (setup : Setup) (event : CanonicalEvent) (set : Option String) (rows : List LogRow)
    → HasRow rows event.event_id
    → InLog (payload_of setup event set) rows
payload_of-InLog setup event set rows h =
    let ids : payload_ids (payload_of setup event set) ≡ event.event_id ∷ [] =
      payload_ids-event_ids (payload_of setup event set)
      ∙ event_ids-build_payload setup.digest setup.lower setup.env (event ∷ []) set in
    rw ids (h, tt)

pub InLog-mono :
    (rows rows' : List LogRow)
    → ((id : String) → HasRow rows id → HasRow rows' id)
    → (payload : TikTokEventsPayload) → InLog payload rows
    → InLog payload rows'
InLog-mono rows rows' keeps payload h = All-map _ _ (payload_ids payload) keeps h

pub upsert_token-InLog :
    (payload : TikTokEventsPayload) (row : StoredToken) (t : Tables)
    → InLog payload t.event_log
    → InLog payload (upsert_token row t).1.event_log
unfolding upsert_token
upsert_token-InLog payload row t h = h
