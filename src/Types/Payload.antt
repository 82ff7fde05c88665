-- ===== src/Types/Payload.antt =====
-- types/index.ts: the payload sent to TikTok, its response, the retry job and the event log's
-- status. A property that is `undefined` is `none`.
use salesforce_tiktok_crm.Base.{ℕ, String, Bool, Option, List}
use salesforce_tiktok_crm.Types.Events.{DfoFunnelStage, EventValue}
use salesforce_tiktok_crm.Types.Canonical.{Number}

pub record TikTokUserData : Type 0 where
  pub lead_id : Option String
  pub email : Option String
  pub phone_number : Option String
  pub external_id : Option String
  pub ttclid : Option String
  pub ip : Option String
  pub user_agent : Option String
  pub first_name : Option String
  pub last_name : Option String

pub record TikTokEventProperties : Type 0 where
  pub currency : Option String
  pub value : Option Number
  pub lead_status : Option String
  pub source : Option String
  pub campaign_id : Option String
  pub integration_version : Option String
  pub dfo_stage : Option DfoFunnelStage

pub record TikTokEventData : Type 0 where
  pub event : EventValue
  pub event_time : Option ℕ
  pub event_id : String
  pub user : TikTokUserData
  pub properties : TikTokEventProperties

pub record TikTokEventsPayload : Type 0 where
  pub event_source : String
  pub event_source_id : String
  pub data_entries : List TikTokEventData

pub record BatchUploadStatus : Type 0 where
  pub event_id : String
  pub success : Bool
  pub error_message : Option String

pub record TikTokApiResponse : Type 0 where
  pub code : ℕ
  pub message : String
  pub request_id : String
  pub batch_upload_status : Option (List BatchUploadStatus)

pub record RetryJobData : Type 0 where
  pub payload : TikTokEventsPayload
  pub attempt_number : ℕ
  pub original_event_ids : List String
  pub enqueued_at : ℕ

pub data EventLogStatus : Type 0 where
  pending sent failed duplicate : EventLogStatus
