-- ===== src/Config/Schema.antt =====
-- config/env.ts: the schema of the environment. `process.env` gives a text for a name, or none. Tests
-- for a URL and `Number` are parameters, the latter for natural numbers; a default stands in for a
-- variable that is not set, and is then read as a value would be.
pub mod Defaults
use Prim.Native.String
use salesforce_tiktok_crm.Base.{
  ℕ, String, Bool, true, false, ◌||◌, Option, none, some, List, [], ◌∷◌, ◌==◌, if◌then◌else◌,
}
use salesforce_tiktok_crm.Text.{non_empty}
use salesforce_tiktok_crm.Config.{Env, AppCredentials}

pub record Settings : Type 0 where
  pub sf_login_url : String
  pub sf_client_id : String
  pub sf_client_secret : String
  pub sf_username : String
  pub sf_password : String
  pub sf_security_token : String
  pub sf_cdc_channel : String
  pub app : AppCredentials
  pub tiktok_api_base_url : String
  pub tiktok_api_version : String
  pub redis_host : String
  pub redis_port : ℕ
  pub redis_password : Option String
  pub redis_tls : Bool
  pub postgres_host : String
  pub postgres_port : ℕ
  pub postgres_db : String
  pub postgres_user : String
  pub postgres_password : String
  pub node_env : String
  pub port : ℕ
  pub log_level : String
  -- the settings that the modelled code reads
  pub env : Env

infixl 5 ◌>>=◌
unfoldable pub ◌>>=◌ {ℓ} : {A B : Type ℓ} → Option A → (A → Option B) → Option B
none >>= f = none
some a >>= f = f a

-- `.default(text)`
abbrev pub or_default : String → Option String → String
or_default text none = text
or_default text (some given) = given

-- a variable that has to be there
abbrev pub required : (String → Option String) → Option String → Option String
required check none = none
required check (some given) = check given

unfoldable pub one_of : List String → String → Option String
one_of [] s = none
one_of (x ∷ xs) s = let later = one_of xs s in if x == s then some s else later

module _ (is_url : String → Bool) (number : String → Option ℕ) (raw : String → Option String) where
  -- `z.string().min(1)`
  abbrev pub min_one : String → Option String
  min_one name = required non_empty (raw name)

  abbrev pub checked_url : String → Option String
  checked_url s = if is_url s then some s else none

  abbrev pub text : (name default : String) → String
  text name default = or_default default (raw name)

  -- `z.coerce.number().default(n)`, with the default as a text
  abbrev pub number_or : ℕ → Option String → Option ℕ
  number_or n none = some n
  number_or n (some given) = number given

  unfoldable pub parse_env : Option Env
  parse_env = do
    ttl ← number_or 172800 (raw "REDIS_DEDUP_TTL_SECONDS")
    retries ← number_or 5 (raw "TIKTOK_MAX_RETRIES")
    delay ← number_or 1000 (raw "TIKTOK_INITIAL_RETRY_DELAY_MS")
    batch ← number_or 50 (raw "TIKTOK_BATCH_SIZE")
    rps ← number_or 10 (raw "TIKTOK_RATE_LIMIT_RPS")
    some (record {
      tiktok_crm_event_set_id = raw "TIKTOK_CRM_EVENT_SET_ID";
      tiktok_access_token = raw "TIKTOK_ACCESS_TOKEN";
      redis_dedup_ttl_seconds = ttl;
      integration_version = text "INTEGRATION_VERSION" "1.0.0";
      tiktok_max_retries = retries;
      tiktok_initial_retry_delay_ms = delay;
      tiktok_batch_size = batch;
      tiktok_rate_limit_rps = rps;
    })

  unfoldable pub parse_app : Option AppCredentials
  parse_app = do
    id ← min_one "TIKTOK_APP_ID"
    secret ← min_one "TIKTOK_APP_SECRET"
    uri ← required checked_url (raw "TIKTOK_REDIRECT_URI")
    some (record { tiktok_app_id = id; tiktok_app_secret = secret; tiktok_redirect_uri = uri })

  -- `envSchema.safeParse(process.env)`: `none` where it does not succeed, and the process exits
  unfoldable pub parse_settings : Option Settings
  unfolding parse_env parse_app one_of
  parse_settings = do
    login_url ← checked_url (text "SF_LOGIN_URL" "https://login.salesforce.com")
    client_id ← min_one "SF_CLIENT_ID"
    client_secret ← min_one "SF_CLIENT_SECRET"
    username ← min_one "SF_USERNAME"
    password ← min_one "SF_PASSWORD"
    app ← parse_app
    base_url ← checked_url (text "TIKTOK_API_BASE_URL" "https://business-api.tiktok.com")
    redis_port ← number_or 6379 (raw "REDIS_PORT")
    postgres_port ← number_or 5432 (raw "POSTGRES_PORT")
    postgres_password ← min_one "POSTGRES_PASSWORD"
    node_env ← one_of ("development" ∷ "test" ∷ "production" ∷ []) (text "NODE_ENV" "production")
    port ← number_or 3000 (raw "PORT")
    log_level ←
        one_of ("trace" ∷ "debug" ∷ "info" ∷ "warn" ∷ "error" ∷ "fatal" ∷ [])
          (text "LOG_LEVEL" "info")
    env ← parse_env
    some (record {
      sf_login_url = login_url;
      sf_client_id = client_id;
      sf_client_secret = client_secret;
      sf_username = username;
      sf_password = password;
      sf_security_token = text "SF_SECURITY_TOKEN" "";
      sf_cdc_channel = text "SF_CDC_CHANNEL" "/data/LeadChangeEvent";
      app = app;
      tiktok_api_base_url = base_url;
      tiktok_api_version = text "TIKTOK_API_VERSION" "v1.3";
      redis_host = text "REDIS_HOST" "localhost";
      redis_port = redis_port;
      redis_password = raw "REDIS_PASSWORD";
      redis_tls = text "REDIS_TLS" "false" == "true";
      postgres_host = text "POSTGRES_HOST" "localhost";
      postgres_port = postgres_port;
      postgres_db = text "POSTGRES_DB" "crm_events";
      postgres_user = text "POSTGRES_USER" "postgres";
      postgres_password = postgres_password;
      node_env = node_env;
      port = port;
      log_level = log_level;
      env = env;
    })
