-- ===== src/Examples/Configuring.antt =====
-- The schema of the environment on sample data.
use mathlib.Core.List.Memᴰ.{head, tail}
use salesforce_tiktok_crm.Base.{
  ◌≡◌, refl, Bool, true, false, ◌==◌, if◌then◌else◌, ℕ, String, Option, none, some,
}
use salesforce_tiktok_crm.Config.Schema.{parse_settings}
use salesforce_tiktok_crm.Config.Schema.Defaults.{
  RequiredValues, environment, default_settings, parse_settings-missing, parse_settings-defaults,
}
use salesforce_tiktok_crm.Examples.Authorizing.{app}

abbrev values : RequiredValues
values = record {
  client_id = "id";
  client_secret = "secret";
  username = "user";
  password = "password";
  app = app;
  postgres_password = "postgres";
}

abbrev any_url : String → Bool
any_url s = if s == "" then false else true

abbrev no_number : String → Option ℕ
no_number s = none

parse_settings-defaults_example :
    parse_settings any_url no_number (environment values) ≡ some (default_settings values)
parse_settings-defaults_example = parse_settings-defaults any_url no_number values (record {
  client_id = refl;
  client_secret = refl;
  username = refl;
  password = refl;
  app_id = refl;
  app_secret = refl;
  postgres_password = refl;
  redirect_uri = refl;
  login_url = refl;
  api_url = refl;
})

parse_settings-missing_example :
    parse_settings any_url no_number
      (environment (record values { app = record app { tiktok_redirect_uri = "" } }))
    ≡ none
parse_settings-missing_example =
    parse_settings-missing any_url no_number
      (environment (record values { app = record app { tiktok_redirect_uri = "" } }))
      "TIKTOK_REDIRECT_URI" refl (tail (tail (tail (tail (tail (tail (tail (head refl)))))))) refl
