-- ===== src/System/Reaching.antt =====
-- What every step keeps, every state that the server reaches has.
use salesforce_tiktok_crm.Base.{◌≡◌, []}
use salesforce_tiktok_crm.Redis.{Redis}
use salesforce_tiktok_crm.World.{World}
use salesforce_tiktok_crm.World.Keeping.{History, At, state-Keeps}
use salesforce_tiktok_crm.Listener.{Listener, Salesforce}
use salesforce_tiktok_crm.Server.Routing.{Application}
use salesforce_tiktok_crm.System.Safe.{Safe}
use salesforce_tiktok_crm.System.Valid.{Valid, Valid-Safe, Valid-empty, empty_tables}
use salesforce_tiktok_crm.System.Serving.{serve-Keeps}
use salesforce_tiktok_crm.System.Authorization.{refresh_all-Keeps}
use salesforce_tiktok_crm.System.Receiving.{receive-Keeps, shared-KeepsShared, process_job-Keeps}
use salesforce_tiktok_crm.System.Steps.{
  Step, switch, message, request, job, refresh_round, time, Reaches, here, after,
}

module _ {R : Redis} (J : History) (safe : Safe J) (salesforce : Salesforce) (a : Application) where
  Step-Safe : (l l' : Listener (World R)) → Step salesforce a l l' → At J l.shared → At J l'.shared
  Step-Safe _ _ (message m l) i =
      shared-KeepsShared J _ _ (receive-Keeps J safe salesforce a.setup m l i)
  Step-Safe _ _ (request q l) i = state-Keeps J _ _ (serve-Keeps J safe.stable a q l.shared i)
  Step-Safe _ _ (job j l m) i =
      state-Keeps J _ _ (process_job-Keeps J safe a.setup j (switch l.shared) m i)
  Step-Safe _ _ (refresh_round l) i =
      state-Keeps J _ _ (refresh_all-Keeps J safe.stable a.codec a.setup.outside a.app l.shared i)
  Step-Safe _ _ (time ms l) i = i

  pub Reaches-Safe :
      (start l : Listener (World R))
      → Reaches salesforce a start l
      → At J start.shared
      → At J l.shared
  Reaches-Safe start _ here i = i
  Reaches-Safe start l (after l' _ path step) i = Step-Safe l' l step (Reaches-Safe start l' path i)

-- Nothing is stored, sent or enqueued yet.
pub record IsFresh {R : Redis} (w : World R) : Type 0 where
  pub tables : w.tables ≡ empty_tables
  pub requests : w.requests ≡ []
  pub jobs : w.jobs ≡ []

module _ {R : Redis} (salesforce : Salesforce) (a : Application) where
  -- Start from empty tables, with nothing sent and nothing enqueued. After any number of messages of
  -- the channel, requests to any route, runs of the queue's jobs, rounds of the refresher and waits,
  -- whatever the services answer and whether or not the handlers end well: the event log has one row
  -- at most for an event id, the event sets and the tokens one row at most for an advertiser, and
  -- every event of a payload that was sent to TikTok or handed to the queue has a row in the log.
  pub Reaches-Valid :
      (start l : Listener (World R))
      → IsFresh start.shared
      → Reaches salesforce a start l
      → Valid l.shared.tables l.shared.requests l.shared.jobs
  Reaches-Valid start l fresh path =
      Reaches-Safe Valid Valid-Safe salesforce a start l path
        (rw (fresh.tables, fresh.requests, fresh.jobs) Valid-empty)
