-- ===== src/System/Durable.antt =====
-- A row of the event log stays, under everything that the server does.
use salesforce_tiktok_crm.Base.{
  ℕ, ◌≤◌, String, ◌≡◌, refl, ◌∙◌, Option, some, List, ◌==◌, Bool-cases, inl, inr, arith,
}
use salesforce_tiktok_crm.Types.{TikTokApiResponse, EventLogStatus}
use salesforce_tiktok_crm.Types.Auth.{StoredToken}
use salesforce_tiktok_crm.Redis.{Redis}
use salesforce_tiktok_crm.World.{LogRow, Tables, World}
use salesforce_tiktok_crm.World.Keeping.{History}
use salesforce_tiktok_crm.EventLog.{find_row, insert_row, update_rows, updated}
use salesforce_tiktok_crm.EventLog.Rows.{row_at, find_row-insert_row, find_row-update_rows}
use salesforce_tiktok_crm.Auth.TokenTable.{upsert_token}
use salesforce_tiktok_crm.Listener.{Listener, Salesforce}
use salesforce_tiktok_crm.Server.Routing.{Application}
use salesforce_tiktok_crm.System.Stable.{Stable}
use salesforce_tiktok_crm.System.Safe.{Safe}
use salesforce_tiktok_crm.System.Logged.{or_row-found}
use salesforce_tiktok_crm.System.Valid.{Valid, Valid-Stable, Valid-Safe}
use salesforce_tiktok_crm.System.Steps.{Reaches}
use salesforce_tiktok_crm.System.Reaching.{IsFresh, Reaches-Safe, Reaches-Valid}

-- The row as it was, but for its status, its answer, its error, the time of its update and its
-- number of attempts, which is no smaller.
pub record Continues (row later : LogRow) : Type 0 where
  pub id : later.id ≡ row.id
  pub event_id : later.event_id ≡ row.event_id
  pub event_name : later.event_name ≡ row.event_name
  pub lead_id : later.lead_id ≡ row.lead_id
  pub replay_id : later.salesforce_replay_id ≡ row.salesforce_replay_id
  pub payload : later.tiktok_payload ≡ row.tiktok_payload
  pub created_at : later.created_at ≡ row.created_at
  pub attempts : row.attempt_count ≤ later.attempt_count

Continues-refl : (row : LogRow) → Continues row row
Continues-refl row = record {
  id = refl;
  event_id = refl;
  event_name = refl;
  lead_id = refl;
  replay_id = refl;
  payload = refl;
  created_at = refl;
  attempts = omega arith;
}

Continues-updated :
    (status : EventLogStatus) (response : Option TikTokApiResponse) (error : Option String)
    (now : ℕ) (row later : LogRow)
    → Continues row later
    → Continues row (updated status response error now later)
Continues-updated status response error now row later c = record {
  id = c.id;
  event_id = c.event_id;
  event_name = c.event_name;
  lead_id = c.lead_id;
  replay_id = c.replay_id;
  payload = c.payload;
  created_at = c.created_at;
  attempts = (let h = c.attempts in omega arith);
}

-- The log has the row, or what became of it.
abbrev pub Kept : String → LogRow → List LogRow → Type 0
Kept id row rows = (later : LogRow) × (find_row id rows ≡ some later) × Continues row later

insert_row-Kept :
    (id : String) (row new : LogRow) (rows : List LogRow)
    → Kept id row rows
    → Kept id row (insert_row new rows)
insert_row-Kept id row new rows (later, h, c) =
    (later, find_row-insert_row id new rows ∙ or_row-found _ (row_at new id) later h, c)

update_rows-Kept :
    (id : String) (row : LogRow) (j : String) (status : EventLogStatus)
    (response : Option TikTokApiResponse) (error : Option String) (now : ℕ) (rows : List LogRow)
    → Kept id row rows
    → Kept id row (update_rows j (updated status response error now) rows)
update_rows-Kept id row j status response error now rows (later, h, c) =
    let f = updated status response error now in
    let found = find_row-update_rows j id f rows (λ r. refl) in
    elim (Bool-cases (j == id)) [
      | inl e ↦
          let there : find_row id (update_rows j f rows) ≡ some (f later) =
            found ∙ rw (e, h) refl in
          (f later, there, Continues-updated status response error now row later c)
      | inr e ↦
          let there : find_row id (update_rows j f rows) ≡ some later = found ∙ rw (e, h) refl in
          (later, there, c)
    ]

abbrev ValidWith : String → LogRow → History
ValidWith id row t rs js = Valid t rs js × Kept id row t.event_log

upsert_token-Kept :
    (id : String) (row : LogRow) (token : StoredToken) (t : Tables)
    → Kept id row t.event_log
    → Kept id row (upsert_token token t).1.event_log
unfolding upsert_token
upsert_token-Kept id row token t k = k

ValidWith-Stable : (id : String) (row : LogRow) → Stable (ValidWith id row)
ValidWith-Stable id row = record {
  insert = λ new t rs js (v, k).
      (Valid-Stable.insert new t rs js v, insert_row-Kept id row new t.event_log k);
  update = λ j status response error now t rs js (v, k). (
    Valid-Stable.update j status response error now t rs js v,
    update_rows-Kept id row j status response error now t.event_log k,
  );
  upsert_set = λ new t rs js (v, k). (Valid-Stable.upsert_set new t rs js v, k);
  upsert_token = λ new t rs js (v, k).
      (Valid-Stable.upsert_token new t rs js v, upsert_token-Kept id row new t k);
  remove_token = λ j t rs js (v, k). (Valid-Stable.remove_token j t rs js v, k);
}

ValidWith-Safe : (id : String) (row : LogRow) → Safe (ValidWith id row)
ValidWith-Safe id row = record {
  stable = ValidWith-Stable id row;
  post = λ payload token resends t rs js known (v, k).
      (Valid-Safe.post payload token resends t rs js known v, k);
  enqueue = λ payload now t rs js known (v, k). (Valid-Safe.enqueue payload now t rs js known v, k);
  logged = λ t rs js (v, k). v.jobs_logged;
}

module _ {R : Redis} (salesforce : Salesforce) (a : Application) where
  -- Start from empty tables, with nothing sent and nothing enqueued, and take any state that the
  -- server reaches and any row of the event log there. In every state that it reaches after that,
  -- the log has a row for the event, with the same row id, name, lead, replay id, payload and time of
  -- creation, and as many attempts or more.
  pub Reaches-Kept :
      (start l l' : Listener (World R)) (id : String) (row : LogRow)
      → IsFresh start.shared
      → Reaches salesforce a start l
      → find_row id l.shared.tables.event_log ≡ some row
      → Reaches salesforce a l l'
      → Kept id row l'.shared.tables.event_log
  Reaches-Kept start l l' id row fresh path found onward =
      (Reaches-Safe (ValidWith id row) (ValidWith-Safe id row) salesforce a l l' onward
        (Reaches-Valid salesforce a start l fresh path, (row, found, Continues-refl row))).1
