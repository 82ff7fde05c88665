-- ===== src/World.antt =====
-- What the asynchronous code shares and changes: the connection to Redis, the Postgres tables of
-- db/migrate.ts, what was handed to TikTok and to the retry queue, the rate limiters and the time.
-- The other services are streams of answers: the n-th call is given the n-th.
pub mod Keeping
pub mod Quiet
pub mod Running
pub mod Settled
use salesforce_tiktok_crm.Base.{Bool, ℕ, suc, ◌+◌, String, Option, List, ◌∷◌}
use salesforce_tiktok_crm.Types.{
  TikTokEventsPayload, TikTokApiResponse, EventLogStatus, RetryJobData, EventValue,
}
use salesforce_tiktok_crm.Types.Auth.{TikTokTokenResponse, TikTokRefreshResponse, StoredToken}
use salesforce_tiktok_crm.Types.EventSets.{CrmListResponse, CrmCreateResponse}
use salesforce_tiktok_crm.Clients.RateLimiter.{RateLimiter}
use salesforce_tiktok_crm.Exec.{Result, ok, thrown, Exec}
use salesforce_tiktok_crm.Redis.{Redis}

-- A row of `crm_event_log`.
pub record LogRow : Type 0 where
  pub id : String
  pub event_id : String
  pub event_name : String
  pub lead_id : String
  pub salesforce_replay_id : ℕ
  pub tiktok_payload : TikTokEventsPayload
  pub status : EventLogStatus
  pub tiktok_response : Option TikTokApiResponse
  pub attempt_count : ℕ
  pub error : Option String
  pub created_at : ℕ
  pub updated_at : ℕ

pub data EventSetSource : Type 0 where
  auto_created auto_selected manually_selected env_fallback : EventSetSource

-- A row of `advertiser_event_sets`.
pub record EventSetRow : Type 0 where
  pub advertiser_id : String
  pub event_set_id : String
  pub event_set_name : String
  pub source : EventSetSource
  pub created_at : ℕ
  pub updated_at : ℕ

pub record Tables : Type 0 where
  pub event_log : List LogRow
  pub event_sets : List EventSetRow
  pub tokens : List StoredToken

-- What becomes of a statement: it is carried out and answered, fails before it is carried out, or
-- is carried out and fails after that, as when the connection breaks.
pub data Fate : Type 0 where
  answered : Fate
  refused broken : String → Fate

-- The outcome of a POST after the retries of axios-retry.
pub data HttpOutcome : Type 0 where
  response : TikTokApiResponse → HttpOutcome
  failure : String → HttpOutcome

-- The outcome of a call of BullMQ's `add`: the job is added, or there is an error and no job, or
-- the call never settles, as while Redis is down, and the job is there or not.
pub data AddOutcome : Type 0 where
  job_added : AddOutcome
  add_failed : String → AddOutcome
  add_unanswered : Bool → AddOutcome

-- The call settles.
abbrev pub IsSettled : AddOutcome → Type 0
IsSettled job_added = Unit
IsSettled (add_failed message) = Unit
IsSettled (add_unanswered taken) = ⊥

-- The outcome of a call of TikTok's other endpoints.
pub data Reply (A : Type 0) : Type 0 where
  reply : A → Reply A
  no_reply : String → Reply A

-- Those calls, with what the code sends.
pub data ApiCall : Type 0 where
  exchange_call : (app_id secret auth_code : String) → ApiCall
  refresh_call : (app_id secret refresh_token : String) → ApiCall
  list_call : (access_token advertiser_id : String) → ApiCall
  create_call : (access_token advertiser_id name : String) → ApiCall

-- The services: Postgres, TikTok's HTTP API, BullMQ's `add`, how often axios-retry sends a POST
-- again, uuid's `v4` and
-- `randomBytes(32)` in hex; the order in which the refreshes of a round complete,
-- and the milliseconds that a call takes.
pub record Outside : Type 0 where
  pub statement : ℕ → Fate
  pub post : ℕ → HttpOutcome
  pub resends : ℕ → ℕ
  pub add : ℕ → AddOutcome
  pub uuid : ℕ → String
  pub random : ℕ → String
  pub exchange : ℕ → Reply TikTokTokenResponse
  pub refresh : ℕ → Reply TikTokRefreshResponse
  pub list_sets : ℕ → Reply CrmListResponse
  pub create_set : ℕ → Reply CrmCreateResponse
  pub completion : List String → List String
  pub latency : ℕ → ℕ

-- A call of `http.post('/event/track/', …)`: the request is sent once, and again by axios-retry as
-- often as `resends` says, at most TIKTOK_MAX_RETRIES times.
pub record Request : Type 0 where
  pub access_token : String
  pub payload : TikTokEventsPayload
  pub resends : ℕ

-- A call of BullMQ's `add`: the job's id and its data.
pub record Job : Type 0 where
  pub job_id : String
  pub job_data : RetryJobData

pub record World (R : Redis) : Type 0 where
  pub redis : R.Conn
  pub tables : Tables
  -- the statements so far
  pub statements : ℕ
  -- the calls of `http.post`, the last one first
  pub requests : List Request
  pub posts : ℕ
  -- the jobs handed to the queue, the last one first
  pub jobs : List Job
  pub adds : ℕ
  pub uuids : ℕ
  pub randoms : ℕ
  -- the calls of the other endpoints, the last one first
  pub calls : List ApiCall
  pub call_count : ℕ
  -- of the pipeline's client, and of the client of the queue's worker
  pub limiter : RateLimiter
  pub worker_limiter : RateLimiter
  pub now : ℕ

module _ {R : Redis} where
  abbrev pub run_statement :
      {A : Type 0} → Fate → (Tables → A × Tables) → World R → Result A × World R
  run_statement answered f w =
      let (a, t) = f w.tables in (ok a, record w { tables = t; statements = suc w.statements })
  run_statement (refused message) f w = (thrown message, record w { statements = suc w.statements })
  run_statement (broken message) f w =
      let (a, t) = f w.tables in
      (thrown message, record w { tables = t; statements = suc w.statements })

  -- One SQL statement, read as a function on the tables.
  unfoldable pub query : {A : Type 0} → Outside → (Tables → A × Tables) → Exec (World R) A
  query outside f w = run_statement (outside.statement w.statements) f w

  -- One Redis command.
  unfoldable pub command : {A : Type 0} → (R.Conn → Result A × R.Conn) → Exec (World R) A
  command f w = let (r, c) = f w.redis in (r, record w { redis = c })

  abbrev pub replied : {A : Type 0} → Reply A → Exec (World R) A
  replied (reply a) w = (ok a, w)
  replied (no_reply message) w = (thrown message, w)

  -- One call of TikTok's other endpoints.
  unfoldable pub call : {A : Type 0} → Outside → ApiCall → (ℕ → Reply A) → Exec (World R) A
  call outside request answers w = replied (answers w.call_count) (record w {
    calls = request ∷ w.calls;
    call_count = suc w.call_count;
    now = w.now + outside.latency w.call_count;
  })
