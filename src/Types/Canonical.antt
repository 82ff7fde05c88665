-- ===== src/Types/Canonical.antt =====
-- types/index.ts: the canonical event that the pipeline builds, and the hashed user.
use salesforce_tiktok_crm.Base.{ℕ, String, Bool, Option}
use salesforce_tiktok_crm.Types.Events.{EventValue}

-- A JavaScript number, which the builder copies and never computes with:
-- (-1)^negative * mantissa * 2^(up - down).
pub data Number : Type 0 where
  finite : (negative : Bool) (mantissa up down : ℕ) → Number
  infinite : (negative : Bool) → Number
  nan : Number

pub record CanonicalLead : Type 0 where
  pub lead_id : String
  pub status : String
  pub created_at : Option String
  pub converted_at : Option String

pub record CanonicalUser : Type 0 where
  pub email : Option String
  pub phone : Option String
  pub first_name : Option String
  pub last_name : Option String
  pub city : Option String
  pub state : Option String
  pub zip : Option String
  pub country : Option String
  pub external_id : Option String
  pub tiktok_lead_id : Option String

pub record CanonicalAttribution : Type 0 where
  pub ttclid : Option String
  pub source : Option String
  pub campaign_id : Option String

pub record CanonicalDevice : Type 0 where
  pub ip : Option String
  pub user_agent : Option String

pub record CanonicalEventMetadata : Type 0 where
  pub salesforce_object : String
  pub integration_version : String

-- `event_time` in seconds; `none` is NaN, from a timestamp that is no date
pub record CanonicalEvent : Type 0 where
  pub event_id : String
  pub event_name : EventValue
  pub event_time : Option ℕ
  pub event_source : String
  pub lead : CanonicalLead
  pub user : CanonicalUser
  pub attribution : CanonicalAttribution
  pub device : CanonicalDevice
  pub metadata : CanonicalEventMetadata
  pub value : Option Number
  pub currency : Option String

pub record HashedUser : Type 0 where
  pub email : Option String
  pub phone_number : Option String
  pub first_name : Option String
  pub last_name : Option String
  pub city : Option String
  pub state : Option String
  pub zip : Option String
  pub country : Option String
  pub external_id : Option String
