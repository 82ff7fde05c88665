-- ===== src/Types/Salesforce.antt =====
-- types/index.ts: the Salesforce change event and the Lead record. A message is untyped JSON when
-- it arrives, so `change_type` is any text and a payload field is a text or something else.
use salesforce_tiktok_crm.Base.{ℕ, String, Bool, Option, List}

pub record SalesforceCdcHeader : Type 0 where
  pub change_type : String
  pub changed_fields : Option (List String)
  pub transaction_key : String
  pub sequence_number : ℕ
  pub commit_timestamp : Option String
  pub commit_user : String
  pub commit_number : String
  pub entity_name : String
  pub record_ids : Option (List String)

pub record SalesforceLead : Type 0 where
  pub id : String
  pub status : String
  pub email : Option String
  pub phone : Option String
  pub first_name : Option String
  pub last_name : Option String
  pub company : Option String
  pub title : Option String
  pub city : Option String
  pub state : Option String
  pub postal_code : Option String
  pub country : Option String
  pub is_converted : Bool
  pub converted_date : Option String
  pub created_date : String
  pub lead_source : Option String
  pub campaign : Option String
  pub ttclid : Option String
  pub tiktok_lead_id : Option String
  pub external_id : Option String
  pub ip_address : Option String
  pub user_agent : Option String

-- `unknown`: the filter asks only whether the value is a string
pub data FieldValue : Type 0 where
  text : String → FieldValue
  other : FieldValue

pub record SalesforceCdcEvent : Type 0 where
  pub schema : String
  pub header : SalesforceCdcHeader
  pub fields : List (String × FieldValue)
  pub replay_id : ℕ
