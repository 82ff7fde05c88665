-- ===== src/Types/Auth.antt =====
-- auth/types.ts: the answers of TikTok's OAuth endpoints, as far as the code reads them, and the
-- stored tokens. A date is the number of its milliseconds.
use salesforce_tiktok_crm.Base.{ℕ, String, List}

-- An answer without `data` has a code that is not 0, and the fields are then not read.
pub record TikTokTokenResponse : Type 0 where
  pub code : ℕ
  pub message : String
  pub access_token : String
  pub refresh_token : String
  pub scope : String
  pub advertiser_ids : List String

pub record TikTokRefreshResponse : Type 0 where
  pub code : ℕ
  pub message : String
  pub access_token : String
  pub refresh_token : String
  pub scope : String

pub record StoredToken : Type 0 where
  pub id : String
  pub advertiser_id : String
  pub access_token : String
  pub refresh_token : String
  pub access_token_expires_at : ℕ
  pub refresh_token_expires_at : ℕ
  pub scope : String
  pub created_at : ℕ
  pub updated_at : ℕ

-- A field that holds a `Date`, or the ISO text that JSON makes of it.
pub data DateField : Type 0 where
  date iso_text : ℕ → DateField

-- `new Date(field)`
abbrev pub time_of : DateField → ℕ
time_of (date ms) = ms
time_of (iso_text ms) = ms

pub record ActiveToken : Type 0 where
  pub access_token : String
  pub advertiser_id : String
  pub expires_at : DateField
