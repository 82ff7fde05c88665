-- ===== src/Queue.antt =====
-- queue/retry-queue.ts: handing a payload to BullMQ, and what its worker does with a job.
pub mod Handles
use Prim.Native.String
use salesforce_tiktok_crm.Base.{ℕ, suc, String, Bool, true, false, List, [], ◌∷◌, map}
use salesforce_tiktok_crm.Types.{TikTokEventsPayload, TikTokEventData, TikTokApiResponse}
use salesforce_tiktok_crm.Exec.{Exec, hangs, return, throw, ◌>>◌}
use salesforce_tiktok_crm.Redis.{Redis}
use salesforce_tiktok_crm.World.{
  Outside, World, Job, AddOutcome, job_added, add_failed, add_unanswered,
}

abbrev pub payload_ids : TikTokEventsPayload → List String
payload_ids payload = map (λ (e : TikTokEventData). e.event_id) payload.data_entries

-- `ids.join(':')`
unfoldable pub join_colon : List String → String
join_colon [] = ""
join_colon (x ∷ []) = x
join_colon (x ∷ y ∷ ys) = String.◌++◌ x (String.◌++◌ ":" (join_colon (y ∷ ys)))

abbrev pub new_job : TikTokEventsPayload → ℕ → Job
new_job payload now = record {
  job_id = join_colon (payload_ids payload);
  job_data = record {
    payload = payload;
    attempt_number = 0;
    original_event_ids = payload_ids payload;
    enqueued_at = now;
  };
}

module _ {R : Redis} (outside : Outside) where
  abbrev pub added : AddOutcome → Job → Exec (World R) (Unit {0})
  added job_added job w = return tt (record w { jobs = job ∷ w.jobs; adds = suc w.adds })
  added (add_failed message) job w = throw message (record w { adds = suc w.adds })
  added (add_unanswered true) job w = (hangs, record w { jobs = job ∷ w.jobs; adds = suc w.adds })
  added (add_unanswered false) job w = (hangs, record w { adds = suc w.adds })

  -- `q.add('send-events', jobData, { jobId })`
  unfoldable pub add_job : Job → Exec (World R) (Unit {0})
  add_job job w = added (outside.add w.adds) job w

  unfoldable pub enqueue_payload : TikTokEventsPayload → Exec (World R) String
  unfolding add_job
  enqueue_payload payload w =
      (do add_job (new_job payload w.now); return (join_colon (payload_ids payload))) w

  -- the processor of `startWorker`, given the client's `sendEvents`
  unfoldable pub process_job :
      (TikTokEventsPayload → Exec (World R) TikTokApiResponse)
      → Job
      → Exec (World R) TikTokApiResponse
  process_job send_events job = send_events job.job_data.payload
