-- ===== src/Config/Schema/Defaults.antt =====
-- Which environments the schema takes.
use mathlib.Core.List.{Memᴰ}
use mathlib.Core.List.Memᴰ.{head, tail}
use salesforce_tiktok_crm.Base.{
  ℕ, String, Bool, true, false, ◌≡◌, refl, Option, none, some, List, [], ◌∷◌, ◌==◌, if◌then◌else◌,
}
use salesforce_tiktok_crm.Text.{non_empty, truthy_text}
use salesforce_tiktok_crm.Config.{AppCredentials, default_env}
use salesforce_tiktok_crm.Config.Schema.{
  Settings, required, checked_url, one_of, ◌>>=◌, parse_env, parse_app, parse_settings,
}

-- The variables of the schema that have no default and may not be empty.
abbrev pub required_names : List String
required_names =
    "SF_CLIENT_ID" ∷ "SF_CLIENT_SECRET" ∷ "SF_USERNAME" ∷ "SF_PASSWORD" ∷ "TIKTOK_APP_ID"
    ∷ "TIKTOK_APP_SECRET" ∷ "POSTGRES_PASSWORD" ∷ "TIKTOK_REDIRECT_URI" ∷ []

-- a chain is refused where what comes later is, whatever the answer before
later {ℓ} :
    {A B : Type ℓ} (m : Option A) (f : A → Option B) → ((a : A) → f a ≡ none) → (m >>= f) ≡ none
unfolding ◌>>=◌
later none f h = refl
later (some a) f h = h a

-- and where what comes first is
now {ℓ} : {A B : Type ℓ} (m : Option A) (f : A → Option B) → m ≡ none → (m >>= f) ≡ none
unfolding ◌>>=◌
now m f h = rw h refl

required-truthy : (o : Option String) → truthy_text o ≡ none → required non_empty o ≡ none
required-truthy none h = refl
required-truthy (some s) h = h

module _ (is_url : String → Bool) (number : String → Option ℕ) (raw : String → Option String) where
  IsRefused : String → Type 0
  IsRefused name = required non_empty (raw name) ≡ none → parse_settings is_url number raw ≡ none

  client_id-IsRefused : IsRefused "SF_CLIENT_ID"
  unfolding IsRefused parse_settings parse_app
  client_id-IsRefused h = later _ _ (λ _. now _ _ h)

  client_secret-IsRefused : IsRefused "SF_CLIENT_SECRET"
  unfolding IsRefused parse_settings parse_app
  client_secret-IsRefused h = later _ _ (λ _. later _ _ (λ _. now _ _ h))

  username-IsRefused : IsRefused "SF_USERNAME"
  unfolding IsRefused parse_settings parse_app
  username-IsRefused h = later _ _ (λ _. later _ _ (λ _. later _ _ (λ _. now _ _ h)))

  password-IsRefused : IsRefused "SF_PASSWORD"
  unfolding IsRefused parse_settings parse_app
  password-IsRefused h =
      later _ _ (λ _. later _ _ (λ _. later _ _ (λ _. later _ _ (λ _. now _ _ h))))

  app_id-IsRefused : IsRefused "TIKTOK_APP_ID"
  unfolding IsRefused parse_settings parse_app
  app_id-IsRefused h =
      later _ _ (λ _.
        later _ _ (λ _. later _ _ (λ _. later _ _ (λ _. later _ _ (λ _. now _ _ (now _ _ h))))))

  app_secret-IsRefused : IsRefused "TIKTOK_APP_SECRET"
  unfolding IsRefused parse_settings parse_app
  app_secret-IsRefused h = later _ _ (λ _. later _ _ (λ _.
      later _ _ (λ _. later _ _ (λ _. later _ _ (λ _. now _ _ (later _ _ (λ _. now _ _ h)))))))

  postgres_password-IsRefused : IsRefused "POSTGRES_PASSWORD"
  unfolding IsRefused parse_settings parse_app
  postgres_password-IsRefused h = later _ _ (λ _. later _ _ (λ _. later _ _ (λ _. later _ _ (λ _.
      later _ _
        (λ _. later _ _ (λ _. later _ _ (λ _. later _ _ (λ _. later _ _ (λ _. now _ _ h)))))))))

  -- an empty text is not a URL
  required_url :
      (o : Option String)
      → truthy_text o ≡ none
      → is_url "" ≡ false
      → required (checked_url is_url number raw) o ≡ none
  required_url none h blank = refl
  required_url (some String.[]) h blank = rw blank refl
  required_url (some (String.◌∷◌ c s)) h blank = cc

  redirect_uri-IsRefused :
      required (checked_url is_url number raw) (raw "TIKTOK_REDIRECT_URI") ≡ none
      → parse_settings is_url number raw ≡ none
  unfolding parse_settings parse_app
  redirect_uri-IsRefused h = later _ _ (λ _. later _ _ (λ _. later _ _ (λ _.
      later _ _ (λ _. later _ _ (λ _. now _ _ (later _ _ (λ _. later _ _ (λ _. now _ _ h))))))))

  required_name-IsRefused :
      (name : String)
      → is_url "" ≡ false
      → Memᴰ name required_names
      → truthy_text (raw name) ≡ none
      → parse_settings is_url number raw ≡ none
  unfolding IsRefused
  required_name-IsRefused name blank (head e) =
      rw e (λ h. client_id-IsRefused (required-truthy _ h))
  required_name-IsRefused name blank (tail (head e)) =
      rw e (λ h. client_secret-IsRefused (required-truthy _ h))
  required_name-IsRefused name blank (tail (tail (head e))) =
      rw e (λ h. username-IsRefused (required-truthy _ h))
  required_name-IsRefused name blank (tail (tail (tail (head e)))) =
      rw e (λ h. password-IsRefused (required-truthy _ h))
  required_name-IsRefused name blank (tail (tail (tail (tail (head e))))) =
      rw e (λ h. app_id-IsRefused (required-truthy _ h))
  required_name-IsRefused name blank (tail (tail (tail (tail (tail (head e)))))) =
      rw e (λ h. app_secret-IsRefused (required-truthy _ h))
  required_name-IsRefused name blank (tail (tail (tail (tail (tail (tail (head e))))))) =
      rw e (λ h. postgres_password-IsRefused (required-truthy _ h))
  required_name-IsRefused name blank (tail (tail (tail (tail (tail (tail (tail (head e)))))))) =
      rw e (λ h. redirect_uri-IsRefused (required_url _ h blank))
  required_name-IsRefused name blank (tail (tail (tail (tail (tail (tail (tail (tail m)))))))) =
      elim m [ ]

  -- Where one of the eight required variables is not set or empty, and the empty text is no URL, the
  -- environment is refused, whatever the other variables are.
  pub parse_settings-missing :
      (name : String)
      → is_url "" ≡ false
      → Memᴰ name required_names
      → truthy_text (raw name) ≡ none
      → parse_settings is_url number raw ≡ none
  parse_settings-missing name blank m h = required_name-IsRefused name blank m h

-- The values of the variables that have no default.
pub record RequiredValues : Type 0 where
  pub client_id : String
  pub client_secret : String
  pub username : String
  pub password : String
  pub app : AppCredentials
  pub postgres_password : String

-- The value of the first entry with the name.
abbrev pub lookup : List (String × String) → String → Option String
lookup [] name = none
lookup ((n, value) ∷ rest) name =
    let later = lookup rest name in if n == name then some value else later

-- An environment that sets those variables and no other.
abbrev pub environment : RequiredValues → String → Option String
environment v = lookup (
    ("SF_CLIENT_ID", v.client_id)
    ∷ ("SF_CLIENT_SECRET", v.client_secret)
    ∷ ("SF_USERNAME", v.username)
    ∷ ("SF_PASSWORD", v.password)
    ∷ ("TIKTOK_APP_ID", v.app.tiktok_app_id)
    ∷ ("TIKTOK_APP_SECRET", v.app.tiktok_app_secret)
    ∷ ("TIKTOK_REDIRECT_URI", v.app.tiktok_redirect_uri)
    ∷ ("POSTGRES_PASSWORD", v.postgres_password)
    ∷ [])

-- The settings that such an environment gives.
abbrev pub default_settings : RequiredValues → Settings
default_settings v = record {
  sf_login_url = "https://login.salesforce.com";
  sf_client_id = v.client_id;
  sf_client_secret = v.client_secret;
  sf_username = v.username;
  sf_password = v.password;
  sf_security_token = "";
  sf_cdc_channel = "/data/LeadChangeEvent";
  app = v.app;
  tiktok_api_base_url = "https://business-api.tiktok.com";
  tiktok_api_version = "v1.3";
  redis_host = "localhost";
  redis_port = 6379;
  redis_password = none;
  redis_tls = false;
  postgres_host = "localhost";
  postgres_port = 5432;
  postgres_db = "crm_events";
  postgres_user = "postgres";
  postgres_password = v.postgres_password;
  node_env = "production";
  port = 3000;
  log_level = "info";
  env = default_env;
}

-- No value is empty, and the URLs are URLs.
pub record AreGiven (is_url : String → Bool) (v : RequiredValues) : Type 0 where
  pub client_id : non_empty v.client_id ≡ some v.client_id
  pub client_secret : non_empty v.client_secret ≡ some v.client_secret
  pub username : non_empty v.username ≡ some v.username
  pub password : non_empty v.password ≡ some v.password
  pub app_id : non_empty v.app.tiktok_app_id ≡ some v.app.tiktok_app_id
  pub app_secret : non_empty v.app.tiktok_app_secret ≡ some v.app.tiktok_app_secret
  pub postgres_password : non_empty v.postgres_password ≡ some v.postgres_password
  pub redirect_uri : is_url v.app.tiktok_redirect_uri ≡ true
  pub login_url : is_url "https://login.salesforce.com" ≡ true
  pub api_url : is_url "https://business-api.tiktok.com" ≡ true

-- An environment that sets the variables without a default, to texts that are not empty and to a
-- URL, and nothing else, is taken, and every other setting has its default.
pub parse_settings-defaults :
    (is_url : String → Bool) (number : String → Option ℕ) (v : RequiredValues)
    → AreGiven is_url v
    → parse_settings is_url number (environment v) ≡ some (default_settings v)
unfolding parse_settings parse_app parse_env one_of ◌>>=◌
parse_settings-defaults is_url number v given =
    rw
      (
        given.client_id, given.client_secret, given.username, given.password, given.app_id,
        given.app_secret, given.postgres_password, given.redirect_uri, given.login_url,
        given.api_url,
      )
      refl
