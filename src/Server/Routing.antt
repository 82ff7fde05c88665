-- ===== src/Server/Routing.antt =====
-- server.ts: the routes of the Express application, and what the three that stand there answer.
use salesforce_tiktok_crm.Base.{ℕ, String, Option, none, some, [], ◌∷◌}
use salesforce_tiktok_crm.Config.{Env, AppCredentials}
use salesforce_tiktok_crm.Types.{FieldValue}
use salesforce_tiktok_crm.Http.{HttpResponse, json, string, number}
use salesforce_tiktok_crm.Auth.TokenStore.{TokenCodec}
use salesforce_tiktok_crm.Auth.Routes.{QueryForm}
use salesforce_tiktok_crm.Pipeline.{Setup}

-- GET /health, /ready and /metrics/queue, the OAuth routes under /auth and the event sets' under
-- /event-sets
pub data RouteName : Type 0 where
  health ready queue_metrics begin callback status refresh revoke : RouteName
  provision list create select active : RouteName

-- A request that Express has given to a route, after it has parsed the body (a body that is not JSON
-- is answered by the error handler of the application, and reaches no route): the parameter of its path, where the route has one,
-- the query of the callback, and the fields of the body that the handlers read.
pub record HttpRequest : Type 0 where
  pub route : RouteName
  pub advertiser_id : String
  pub query : QueryForm
  pub name : Option FieldValue
  pub event_set_id : Option FieldValue
  pub event_set_name : Option String

pub record QueueCounts : Type 0 where
  pub waiting : ℕ
  pub active : ℕ
  pub completed : ℕ
  pub failed : ℕ
  pub delayed : ℕ

-- What `bootstrap` is given: the settings and the services, and what BullMQ answers of the number
-- of its jobs at a time.
pub record Application : Type 0 where
  pub setup : Setup
  pub app : AppCredentials
  pub codec : TokenCodec
  pub encode : String → String
  pub day : ℕ → String
  pub timestamp : ℕ → String
  pub queue_counts : ℕ → Option QueueCounts

-- GET /health
unfoldable pub health_answer : Env → String → HttpResponse
health_answer env timestamp = json 200 (
    ("status", string "ok")
    ∷ ("service", string "salesforce-tiktok-crm")
    ∷ ("version", string env.integration_version)
    ∷ ("timestamp", string timestamp)
    ∷ [])

-- GET /ready
unfoldable pub ready_answer : HttpResponse
ready_answer = json 200 (("status", string "ready") ∷ [])

-- GET /metrics/queue
unfoldable pub metrics_answer : Option QueueCounts → HttpResponse
metrics_answer none = json 500 (("error", string "Failed to fetch queue metrics") ∷ [])
metrics_answer (some counts) = json 200 (
    ("waiting", number counts.waiting)
    ∷ ("active", number counts.active)
    ∷ ("completed", number counts.completed)
    ∷ ("failed", number counts.failed)
    ∷ ("delayed", number counts.delayed)
    ∷ [])
