-- ===== src/Config.antt =====
-- config/env.ts: the settings that the modelled code reads, after parsing. The numbers are natural;
-- the schema also lets negative and fractional ones through, which are left out.
pub mod Schema
use salesforce_tiktok_crm.Base.{ℕ, String, Option, none}

pub record Env : Type 0 where
  pub tiktok_crm_event_set_id : Option String
  pub tiktok_access_token : Option String
  pub redis_dedup_ttl_seconds : ℕ
  pub integration_version : String
  pub tiktok_max_retries : ℕ
  pub tiktok_initial_retry_delay_ms : ℕ
  pub tiktok_batch_size : ℕ
  pub tiktok_rate_limit_rps : ℕ

-- the settings of an environment that gives none of them
abbrev pub default_env : Env
default_env = record {
  tiktok_crm_event_set_id = none;
  tiktok_access_token = none;
  redis_dedup_ttl_seconds = 172800;
  integration_version = "1.0.0";
  tiktok_max_retries = 5;
  tiktok_initial_retry_delay_ms = 1000;
  tiktok_batch_size = 50;
  tiktok_rate_limit_rps = 10;
}

-- The settings of the OAuth app, which have no default.
pub record AppCredentials : Type 0 where
  pub tiktok_app_id : String
  pub tiktok_app_secret : String
  pub tiktok_redirect_uri : String
