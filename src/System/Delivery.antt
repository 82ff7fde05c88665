-- ===== src/System/Delivery.antt =====
-- The pipeline keeps what is safe to keep: an event is in the log before it is sent or enqueued.
use salesforce_tiktok_crm.Base.{
  ℕ, String, Option, none, some, Bool, true, false, Bool-cases, inl, inr,
}
use salesforce_tiktok_crm.Types.{
  SalesforceCdcEvent, SalesforceLead, EventValue, CanonicalEvent, TikTokEventsPayload, pending,
  sent, failed, duplicate,
}
use salesforce_tiktok_crm.Exec.{Result, ok}
use salesforce_tiktok_crm.Exec.Rules.{Run, Run-bind, Run-mono}
use salesforce_tiktok_crm.Redis.{Redis}
use salesforce_tiktok_crm.World.{World}
use salesforce_tiktok_crm.World.Running.{query-Run, return-Run}
use salesforce_tiktok_crm.World.Keeping.{
  History, At, Keeps, Keeps-run, Keeps-bind, Keeps-recover, command-Keeps,
}
use salesforce_tiktok_crm.Deduplication.{is_duplicate}
use salesforce_tiktok_crm.EventLog.{InsertParams, new_row, new_uuid, insert_row, on_log, insert}
use salesforce_tiktok_crm.Filter.{evaluate}
use salesforce_tiktok_crm.Pipeline.{
  Setup, event_time, advertiser_of, canonical_event, payload_of, resolve_event_set, check_duplicate,
  send_or_enqueue, deliver, process_passed, process_result, process,
}
use salesforce_tiktok_crm.Clients.Send.{static_token}
use salesforce_tiktok_crm.System.Stable.{Stable}
use salesforce_tiktok_crm.System.Safe.{Safe}
use salesforce_tiktok_crm.System.Logged.{
  HasRow, InLog, insert_row-HasRow, inserted-HasRow, update_rows-HasRow, payload_of-InLog,
}
use salesforce_tiktok_crm.System.Logged.{InLog-mono, upsert_token-InLog}
use salesforce_tiktok_crm.System.EventSets.{resolve-Keeps}
use salesforce_tiktok_crm.System.Sending.{
  static_token-Keeps, send_events-Keeps, enqueue_payload-Keeps, update_status-Keeps,
}

-- It holds, and the log has the payload's events.
abbrev pub Knows : History → TikTokEventsPayload → History
Knows J payload t rs js = J t rs js × InLog payload t.event_log

Knows-Stable : (J : History) → Stable J → (payload : TikTokEventsPayload) → Stable (Knows J payload)
Knows-Stable J stable payload = record {
  insert = λ row t rs js (v, known). (
    stable.insert row t rs js v,
    InLog-mono t.event_log _ (insert_row-HasRow row t.event_log) payload known,
  );
  update = λ id status response error now t rs js (v, known). (
    stable.update id status response error now t rs js v,
    InLog-mono t.event_log _ (update_rows-HasRow id status response error now t.event_log) payload
        known,
  );
  upsert_set = λ row t rs js (v, known). (stable.upsert_set row t rs js v, known);
  upsert_token = λ row t rs js (v, known).
      (stable.upsert_token row t rs js v, upsert_token-InLog payload row t known);
  remove_token = λ id t rs js (v, known). (stable.remove_token id t rs js v, known);
}

module _ {R : Redis} (J : History) where
  pub forget :
      {A : Type 0} (payload : TikTokEventsPayload) (p : Result A × World R)
      → Keeps (Knows J payload) p
      → Keeps J p
  forget payload p k = Run-mono _ _ _ _ _ _ p.0 p.1 k (λ a w i. i.0) (λ m w i. i.0) (λ w i. i.0)

module _ {R : Redis} (J : History) (safe : Safe J) (setup : Setup) where
  send_or_enqueue-Keeps :
      (id : String) (payload : TikTokEventsPayload) (w : World R)
      → At (Knows J payload) w
      → Keeps (Knows J payload) (send_or_enqueue setup id payload w)
  unfolding send_or_enqueue
  send_or_enqueue-Keeps id payload w i =
      let K = Knows J payload in
      let stable = Knows-Stable J safe.stable payload in
      Keeps-recover K _ _ _
        (Keeps-bind K _ _ _
          (send_events-Keeps K setup.outside payload
            (λ token resends t rs js i. (safe.post payload token resends t rs js i.1 i.0, i.1))
            (static_token setup.env) (static_token-Keeps K setup.env) w i)
          (λ answer v j. update_status-Keeps K stable setup.outside id sent (some answer) none v j))
        (λ m v j.
          Keeps-bind K _ _ _
            (update_status-Keeps K stable setup.outside id failed none (some m) v j)
            (λ _ v' j'.
              Keeps-bind K _ _ _
                (enqueue_payload-Keeps K setup.outside payload
                  (λ now t rs js i. (safe.enqueue payload now t rs js i.1 i.0, i.1)) v' j')
                (λ _ v'' j''. Keeps-run K (ok tt) v'' j'')))

  -- once the insert has returned, the log has the event
  insert-Logs :
      (params : InsertParams) (w : World R)
      → At J w
      → Run
          (λ _ v. At J v × HasRow v.tables.event_log params.event_id)
          (λ _. At J)
          (At J)
          (insert setup.outside params w)
  unfolding insert new_uuid
  insert-Logs params w v =
      let row = new_row params (setup.outside.uuid w.uuids) w.now in
      let kept = safe.stable.insert row w.tables w.requests w.jobs v in
      Run-bind (λ _ u. At J u × HasRow u.tables.event_log params.event_id) _ _ _ _ _ _
        (query-Run _ _ _ setup.outside (on_log (insert_row row)) _
          (kept, inserted-HasRow row w.tables.event_log) (λ m. v) (λ m. kept))
        (λ _ u i. return-Run _ _ _ _ u i)

  deliver-Keeps :
      (is_dup : Bool) (event : CanonicalEvent) (replay_id : ℕ) (set : Option String) (w : World R)
      → At J w
      → Keeps J (deliver setup is_dup event replay_id (payload_of setup event set) w)
  unfolding deliver
  deliver-Keeps true event replay_id set w v =
      Run-bind (λ _ u. At J u × HasRow u.tables.event_log event.event_id) _ _ _ _ _ _
        (insert-Logs
          (record {
            event_id = event.event_id;
            event_name = event.event_name;
            lead_id = event.lead.lead_id;
            salesforce_replay_id = replay_id;
            tiktok_payload = payload_of setup event set;
            status = duplicate;
          })
          w v)
        (λ _ u i. Keeps-run J (ok tt) u i.0)
  deliver-Keeps false event replay_id set w v =
      Run-bind (λ _ u. At J u × HasRow u.tables.event_log event.event_id) _ _ _ _ _ _
        (insert-Logs
          (record {
            event_id = event.event_id;
            event_name = event.event_name;
            lead_id = event.lead.lead_id;
            salesforce_replay_id = replay_id;
            tiktok_payload = payload_of setup event set;
            status = pending;
          })
          w v)
        (λ _ u i. forget J (payload_of setup event set) _ (
          send_or_enqueue-Keeps event.event_id (payload_of setup event set) u
            (i.0, payload_of-InLog setup event set u.tables.event_log i.1)))

  resolve_event_set-Keeps :
      (has : Bool) (id : Option String) (w : World R)
      → At J w
      → Keeps J (resolve_event_set setup has id w)
  unfolding resolve_event_set
  resolve_event_set-Keeps true (some id) w v =
      Keeps-recover J _ _ _
        (Keeps-bind J _ _ _ (resolve-Keeps J safe.stable setup.outside setup.env id w v)
          (λ set u i. Keeps-run J (ok (some set)) u i))
        (λ m u i. Keeps-run J (ok none) u i)
  resolve_event_set-Keeps true none w v = Keeps-run J (ok none) w v
  resolve_event_set-Keeps false id w v = Keeps-run J (ok none) w v

  check_duplicate-Keeps :
      (id : String) (w : World R) → At J w → Keeps J (check_duplicate setup id w)
  unfolding check_duplicate
  check_duplicate-Keeps id w v = command-Keeps J (is_duplicate R setup.env id w.now) w v

  process_passed-Keeps :
      (cdc_event : SalesforceCdcEvent) (x : SalesforceLead) (name : EventValue) (w : World R)
      → At J w
      → Keeps J (process_passed setup cdc_event x name w)
  unfolding process_passed
  process_passed-Keeps cdc_event x name w v =
      Keeps-bind J _ _ _
        (resolve_event_set-Keeps setup.has_event_set_manager (advertiser_of x.campaign) w v)
        (λ set u i.
          let event =
            canonical_event setup name
              (event_time setup.date_ms cdc_event.header.commit_timestamp u.now) x in
          Keeps-bind J _ _ _ (check_duplicate-Keeps event.event_id u i)
            (λ is_dup u' i'. deliver-Keeps is_dup event cdc_event.replay_id set u' i'))

  process_result-Keeps :
      (cdc_event : SalesforceCdcEvent) (x : SalesforceLead) (o : Option EventValue) (w : World R)
      → At J w
      → Keeps J (process_result setup cdc_event x o w)
  unfolding process_result
  process_result-Keeps cdc_event x none w v = Keeps-run J (ok tt) w v
  process_result-Keeps cdc_event x (some name) w v = process_passed-Keeps cdc_event x name w v

  pub process-Keeps :
      (cdc_event : SalesforceCdcEvent) (x : SalesforceLead) (w : World R)
      → At J w
      → Keeps J (process setup cdc_event x w)
  unfolding process
  process-Keeps cdc_event x w v =
      let result = evaluate setup.lower cdc_event in
      elim (Bool-cases result.should_process) [
        | inl e ↦ rw e (process_result-Keeps cdc_event x result.event_type w v)
        | inr e ↦ rw e (Keeps-run J (ok tt) w v)
      ]
