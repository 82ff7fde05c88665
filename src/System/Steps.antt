-- ===== src/System/Steps.antt =====
-- What the server does, one step for each message, request, job and round of the refresher, from
-- empty tables on. A step is a whole run of its handler, however it ends.
use salesforce_tiktok_crm.Base.{ℕ, ◌+◌}
use mathlib.Core.List.{Memᴰ}
use salesforce_tiktok_crm.Exec.{Exec}
use salesforce_tiktok_crm.Redis.{Redis}
use salesforce_tiktok_crm.World.{World, Job}
use salesforce_tiktok_crm.Clients.Send.{static_token, send_events}
use salesforce_tiktok_crm.Queue.{process_job}
use salesforce_tiktok_crm.Auth.Refresher.{refresh_all}
use salesforce_tiktok_crm.Listener.{Listener, RawMessage, Salesforce}
use salesforce_tiktok_crm.Server.{receive}
use salesforce_tiktok_crm.Server.Routing.{Application, HttpRequest}
use salesforce_tiktok_crm.Server.Serving.{serve}

module _ {R : Redis} where
  -- a run on the state that is shared
  abbrev pub share : {A : Type 0} → Exec (World R) A → Listener (World R) → Listener (World R)
  share f l = record l { shared = (f l.shared).1 }

  -- the worker's client has a rate limiter of its own
  abbrev pub switch : World R → World R
  switch w = record w { limiter = w.worker_limiter; worker_limiter = w.limiter }

  abbrev pub on_worker : {A : Type 0} → Exec (World R) A → Exec (World R) A
  on_worker f w = let (r, v) = f (switch w) in (r, switch v)

  abbrev pub wait : ℕ → World R → World R
  wait ms w = record w { now = w.now + ms }

  pub data Step (salesforce : Salesforce) (a : Application)
      : Listener (World R) → Listener (World R) → Type 0 where
    message :
        (m : RawMessage) (l : Listener (World R))
        → Step salesforce a l (receive salesforce a.setup m l).1
    request : (q : HttpRequest) (l : Listener (World R)) → Step salesforce a l (share (serve a q) l)
    job :
        (j : Job) (l : Listener (World R))
        → Memᴰ j l.shared.jobs
        → Step salesforce a l (
            share
              (on_worker (
                process_job a.setup.outside
                  (send_events a.setup.outside (static_token a.setup.env))
                  j))
              l)
    refresh_round :
        (l : Listener (World R))
        → Step salesforce a l (share (refresh_all a.codec a.setup.outside a.app) l)
    time :
        (ms : ℕ) (l : Listener (World R))
        → Step salesforce a l (record l { shared = wait ms l.shared })

  pub data Reaches (salesforce : Salesforce) (a : Application) (start : Listener (World R))
      : Listener (World R) → Type 0 where
    here : Reaches salesforce a start start
    after :
        (l l' : Listener (World R))
        → Reaches salesforce a start l
        → Step salesforce a l l'
        → Reaches salesforce a start l'
