-- ===== src/Types/EventSets.antt =====
-- event-set/types.ts: the event sets of TikTok, the answers about them, and what provisioning ends
-- with.
use salesforce_tiktok_crm.Base.{ℕ, String, Option, List}

pub record CrmEventSet : Type 0 where
  pub event_set_id : String
  pub name : String
  pub advertiser_id : String
  pub create_time : ℕ
  pub update_time : ℕ
  pub event_count : Option ℕ

-- `data?.list`, where either may be missing
pub record CrmListResponse : Type 0 where
  pub code : ℕ
  pub message : String
  pub list : Option (List CrmEventSet)

pub record CrmCreateResponse : Type 0 where
  pub code : ℕ
  pub message : String
  pub event_set_id : String
  pub name : String

pub data ProvisionResult : Type 0 where
  selected_existing created_new : CrmEventSet → ProvisionResult
  multiple_found : List CrmEventSet → ProvisionResult
  error : String → ProvisionResult
