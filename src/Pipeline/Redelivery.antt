-- ===== src/Pipeline/Redelivery.antt =====
-- A payload that TikTok has accepted can be enqueued all the same.
use salesforce_tiktok_crm.Base.{suc, String, ◌≡◌, refl, ◌∷◌}
use salesforce_tiktok_crm.Types.{TikTokEventsPayload, TikTokApiResponse}
use salesforce_tiktok_crm.Exec.{ok}
use salesforce_tiktok_crm.Redis.{Redis}
use salesforce_tiktok_crm.World.{World, job_added, answered, refused}
use salesforce_tiktok_crm.EventLog.{update_status}
use salesforce_tiktok_crm.Queue.{enqueue_payload, new_job}
use salesforce_tiktok_crm.Clients.Send.{static_token, send_events}
use salesforce_tiktok_crm.Pipeline.{Setup, send_or_enqueue}

module _ {R : Redis} (setup : Setup) where
  -- Where `sendEvents` returns, so that TikTok has accepted the payload, but the statement that
  -- records it is refused and the next statement and the queue answer, the same payload is enqueued
  -- for another delivery.
  pub send_or_enqueue-twice :
      (id : String) (payload : TikTokEventsPayload) (w w₁ : World R) (result : TikTokApiResponse)
      (message : String)
      → send_events setup.outside (static_token setup.env) payload w ≡ (ok result, w₁)
      → setup.outside.statement w₁.statements ≡ refused message
      → setup.outside.statement (suc w₁.statements) ≡ answered
      → setup.outside.add w₁.adds ≡ job_added
      → ((send_or_enqueue setup id payload w).0 ≡ ok tt)
        × ((send_or_enqueue setup id payload w).1.jobs ≡ new_job payload w₁.now ∷ w₁.jobs)
  unfolding send_or_enqueue update_status enqueue_payload
  send_or_enqueue-twice id payload w w₁ result message accepted first second added =
      rw (accepted, first, second, added) (refl, refl)
