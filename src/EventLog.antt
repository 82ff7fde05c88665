-- ===== src/EventLog.antt =====
-- db/event-log.ts: each SQL statement as a function on the table, whose `event_id` is unique
-- (db/migrate.ts).
pub mod Reads
pub mod Rows
use salesforce_tiktok_crm.Base.{
  ℕ, suc, ◌+◌, String, Bool, true, false, Option, none, some, List, [], ◌∷◌, ◌++◌, ◌==◌,
  if◌then◌else◌,
}
use salesforce_tiktok_crm.Types.{
  TikTokEventsPayload, TikTokApiResponse, EventLogStatus, EventValue, event_value_text,
}
use salesforce_tiktok_crm.Exec.{Exec, return, ◌>>=◌, ◌>>◌}
use salesforce_tiktok_crm.Redis.{Redis}
use salesforce_tiktok_crm.World.{LogRow, Tables, Outside, World, query}

pub record InsertParams : Type 0 where
  pub event_id : String
  pub event_name : EventValue
  pub lead_id : String
  pub salesforce_replay_id : ℕ
  pub tiktok_payload : TikTokEventsPayload
  pub status : EventLogStatus

unfoldable pub find_row : String → List LogRow → Option LogRow
find_row event_id [] = none
find_row event_id (r ∷ rs) = if r.event_id == event_id then some r else find_row event_id rs

-- `INSERT … ON CONFLICT (event_id) DO NOTHING`
abbrev insert_unless : Option LogRow → LogRow → List LogRow → List LogRow
insert_unless none row rows = rows ++ row ∷ []
insert_unless (some old) row rows = rows

unfoldable pub insert_row : LogRow → List LogRow → List LogRow
unfolding find_row
insert_row row rows = insert_unless (find_row row.event_id rows) row rows

abbrev pub updated : EventLogStatus → Option TikTokApiResponse → Option String → ℕ → LogRow → LogRow
updated status response error now row = record row {
  status = status;
  tiktok_response = response;
  error = error;
  attempt_count = row.attempt_count + 1;
  updated_at = now;
}

-- `UPDATE … WHERE event_id = $1`
unfoldable pub update_rows : String → (LogRow → LogRow) → List LogRow → List LogRow
update_rows event_id f [] = []
update_rows event_id f (r ∷ rs) =
    (if r.event_id == event_id then f r else r) ∷ update_rows event_id f rs

abbrev pub on_log : (List LogRow → List LogRow) → Tables → Unit {0} × Tables
on_log f t = (tt, record t { event_log = f t.event_log })

abbrev pub new_row : InsertParams → String → ℕ → LogRow
new_row params id now = record {
  id = id;
  event_id = params.event_id;
  event_name = event_value_text params.event_name;
  lead_id = params.lead_id;
  salesforce_replay_id = params.salesforce_replay_id;
  tiktok_payload = params.tiktok_payload;
  status = params.status;
  tiktok_response = none;
  attempt_count = 1;
  error = none;
  created_at = now;
  updated_at = now;
}

module _ {R : Redis} (outside : Outside) where
  -- `uuidv4()`
  unfoldable pub new_uuid : Exec (World R) String
  new_uuid w = return (outside.uuid w.uuids) (record w { uuids = suc w.uuids })

  -- Returns the new id, also where the insert did nothing.
  unfoldable pub insert : InsertParams → Exec (World R) String
  unfolding new_uuid query insert_row
  insert params w =
      (do id ← new_uuid; query outside (on_log (insert_row (new_row params id w.now))); return id) w

  unfoldable pub update_status :
      String → EventLogStatus → Option TikTokApiResponse → Option String → Exec (World R) (Unit {0})
  unfolding query
  update_status event_id status response error w =
      query outside (on_log (update_rows event_id (updated status response error w.now))) w
