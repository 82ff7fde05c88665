-- ===== src/System/Safe.antt =====
-- What the program has to keep: its statements, its requests and its jobs do.
use salesforce_tiktok_crm.Base.{ℕ, String, List, ◌∷◌, All}
use salesforce_tiktok_crm.Types.{TikTokEventsPayload}
use salesforce_tiktok_crm.World.{Tables, Request, Job}
use salesforce_tiktok_crm.World.Keeping.{History}
use salesforce_tiktok_crm.Queue.{new_job}
use salesforce_tiktok_crm.System.Logged.{InLog}
use salesforce_tiktok_crm.System.Stable.{Stable}

-- Every event of the queue's jobs has a row in the log.
abbrev pub JobsLogged : History
JobsLogged t rs js = All (λ (j : Job). InLog j.job_data.payload t.event_log) js

-- What is sent or enqueued is in the log.
pub record Safe (J : History) : Type 0 where
  pub stable : Stable J
  pub post :
      (payload : TikTokEventsPayload) (token : String) (resends : ℕ) (t : Tables)
      (rs : List Request) (js : List Job)
      → InLog payload t.event_log
      → J t rs js
      → J t (record { access_token = token; payload = payload; resends = resends } ∷ rs) js
  pub enqueue :
      (payload : TikTokEventsPayload) (now : ℕ) (t : Tables) (rs : List Request) (js : List Job)
      → InLog payload t.event_log
      → J t rs js
      → J t rs (new_job payload now ∷ js)
  pub logged : (t : Tables) (rs : List Request) (js : List Job) → J t rs js → JobsLogged t rs js
