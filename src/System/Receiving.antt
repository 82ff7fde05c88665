-- ===== src/System/Receiving.antt =====
-- The listener with the pipeline behind it, and the worker of the queue, keep what is safe to keep.
use salesforce_tiktok_crm.Base.{
  ℕ, zero, suc, String, Option, none, some, List, [], ◌∷◌, Bool-cases, inl, inr, ◌&&◌, not, nat_eq,
  All,
}
use mathlib.Core.List.{Memᴰ}
use mathlib.Core.List.Memᴰ.{head, tail}
use salesforce_tiktok_crm.Exec.{Result, ok, thrown, hangs}
use salesforce_tiktok_crm.Exec.Rules.{Run, Run-bind, Run-recover}
use salesforce_tiktok_crm.Types.{SalesforceCdcEvent, SalesforceLead}
use salesforce_tiktok_crm.Redis.{Redis}
use salesforce_tiktok_crm.World.{World, Job}
use salesforce_tiktok_crm.World.Keeping.{History, At, Keeps}
use salesforce_tiktok_crm.Clients.Send.{static_token, send_events}
use salesforce_tiktok_crm.Queue.{process_job}
use salesforce_tiktok_crm.Pipeline.{Setup, process}
use salesforce_tiktok_crm.Listener.{
  Listener, RawMessage, no_header, message, Salesforce, sleep, retrieve, fetch_lead, deliver_lead,
  fetch_and_deliver, handle_raw_message, record_id,
}
use salesforce_tiktok_crm.Server.{on_event, receive}
use salesforce_tiktok_crm.Server.Receiving.{LeadReply-cases}
use salesforce_tiktok_crm.System.Safe.{Safe}
use salesforce_tiktok_crm.System.Logged.{InLog}
use salesforce_tiktok_crm.System.Sending.{static_token-Keeps, send_events-Keeps}
use salesforce_tiktok_crm.System.Delivery.{Knows, forget, process-Keeps}

module _ {R : Redis} (J : History) where
  abbrev KeepsShared : {A : Type 0} → Result A × Listener (World R) → Type 0
  KeepsShared p =
      Run (λ _ (l : Listener (World R)). At J l.shared) (λ _ l. At J l.shared) (λ l. At J l.shared)
        p

  KeepsShared-run :
      {A : Type 0} (r : Result A) (l : Listener (World R)) → At J l.shared → KeepsShared (r, l)
  unfolding Run
  KeepsShared-run (ok a) l i = i
  KeepsShared-run (thrown m) l i = i
  KeepsShared-run hangs l i = i

  pub shared-KeepsShared :
      {A : Type 0} (r : Result A) (l : Listener (World R)) → KeepsShared (r, l) → At J l.shared
  unfolding Run
  shared-KeepsShared (ok a) l i = i
  shared-KeepsShared (thrown m) l i = i
  shared-KeepsShared hangs l i = i

  run_shared-Keeps :
      {A : Type 0} (r : Result A) (l : Listener (World R)) (w : World R)
      → Keeps J (r, w)
      → KeepsShared (r, record l { shared = w })
  unfolding Run
  run_shared-Keeps (ok a) l w i = i
  run_shared-Keeps (thrown m) l w i = i
  run_shared-Keeps hangs l w i = i

module _ {R : Redis} (J : History) (safe : Safe J) (salesforce : Salesforce) (setup : Setup) where
  fetch_lead-Keeps :
      (n : ℕ) (l : Listener (World R)) → At J l.shared → KeepsShared J (fetch_lead salesforce n l)
  unfolding fetch_lead retrieve sleep
  fetch_lead-Keeps zero l i = KeepsShared-run J (ok none) l i
  fetch_lead-Keeps (suc n) l i = elim (LeadReply-cases (salesforce.retrieve l.retrieves)) [
    | inl (x, h) ↦ rw h (KeepsShared-run J (ok (some x)) _ i)
    | inr (network, h) ↦ elim (Bool-cases (network && not (nat_eq n 0))) [
      | inl again ↦ rw (h, again) (fetch_lead-Keeps n _ i)
      | inr stop ↦ rw (h, stop) (KeepsShared-run J (ok none) _ i)
    ]
  ]

  deliver_lead-Keeps :
      (event : SalesforceCdcEvent) (o : Option SalesforceLead) (l : Listener (World R))
      → At J l.shared
      → KeepsShared J (deliver_lead salesforce (on_event setup) event o l)
  unfolding deliver_lead on_event
  deliver_lead-Keeps event none l i = KeepsShared-run J (ok tt) l i
  deliver_lead-Keeps event (some x) l i =
      run_shared-Keeps J (process setup event x l.shared).0 l (process setup event x l.shared).1
        (process-Keeps J safe setup event x l.shared i)

  fetch_and_deliver-Keeps :
      (event : SalesforceCdcEvent) (id : Option String) (l : Listener (World R))
      → At J l.shared
      → KeepsShared J (fetch_and_deliver salesforce (on_event setup) event id l)
  unfolding fetch_and_deliver
  fetch_and_deliver-Keeps event none l i = KeepsShared-run J (ok tt) l i
  fetch_and_deliver-Keeps event (some id) l i =
      Run-bind _ _ _ _ _ _ _ (fetch_lead-Keeps 5 l i) (λ o v j. deliver_lead-Keeps event o v j)

  pub receive-Keeps :
      (m : RawMessage) (l : Listener (World R))
      → At J l.shared
      → KeepsShared J (receive salesforce setup m l)
  unfolding receive handle_raw_message
  receive-Keeps no_header l i = KeepsShared-run J (ok tt) l i
  receive-Keeps (message event) l i =
      Run-recover _ _ _ _ _ _ _
        (fetch_and_deliver-Keeps event (record_id event.header.record_ids) _ i)
        (λ m v j. KeepsShared-run J (ok tt) v j)

All-Mem : (P : Job → Type 0) (jobs : List Job) (job : Job) → Memᴰ job jobs → All P jobs → P job
All-Mem P [] job m ps = elim m [ ]
All-Mem P (j ∷ js) job (head e) (p, ps) = rw e p
All-Mem P (j ∷ js) job (tail m) (p, ps) = All-Mem P js job m ps

module _ {R : Redis} (J : History) (safe : Safe J) (setup : Setup) where
  -- a job that was handed to the queue
  pub process_job-Keeps :
      (job : Job) (w : World R)
      → Memᴰ job w.jobs
      → At J w
      → Keeps J
          (process_job setup.outside (send_events setup.outside (static_token setup.env)) job w)
  unfolding process_job
  process_job-Keeps job w m i =
      let payload = job.job_data.payload in
      let K = Knows J payload in
      let known : InLog payload w.tables.event_log =
        All-Mem (λ j. InLog j.job_data.payload w.tables.event_log) w.jobs job m
          (safe.logged w.tables w.requests w.jobs i) in
      forget J payload _ (
        send_events-Keeps K setup.outside payload
          (λ token resends t rs js v. (safe.post payload token resends t rs js v.1 v.0, v.1))
          (static_token setup.env) (static_token-Keeps K setup.env) w (i, known))
