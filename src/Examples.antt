-- ===== src/Examples.antt =====
-- Sample data, and the theorems applied to it.
mod Authorizing
mod Codec
mod Configuring
mod Ending
mod EventSets
mod Filtering
mod Listening
mod Sending
mod Serving
mod Storing
use salesforce_tiktok_crm.Base.{ℕ, String, Bool, true, false, Option, none, some, List, [], ◌∷◌}
use salesforce_tiktok_crm.Config.{Env, default_env}
use salesforce_tiktok_crm.Types.{
  SalesforceCdcHeader, SalesforceCdcEvent, SalesforceLead, FieldValue, text, CanonicalEvent,
  CanonicalUser, CanonicalAttribution, CanonicalDevice, EventValue, named, standard, purchase,
  contact,
}
use salesforce_tiktok_crm.Enrichment.{extract_user}

abbrev header : String → List String → SalesforceCdcHeader
header change_type changed = record {
  change_type = change_type;
  changed_fields = some changed;
  transaction_key = "key";
  sequence_number = 1;
  commit_timestamp = some "2024-01-15T10:30:00.000Z";
  commit_user = "user";
  commit_number = "1";
  entity_name = "Lead";
  record_ids = none;
}

abbrev change : String → List String → SalesforceCdcEvent
change change_type changed = record {
  schema = "schema";
  header = header change_type changed;
  fields = [];
  replay_id = 7;
}

abbrev status_change : SalesforceCdcEvent
status_change = change "UPDATE" ("Status" ∷ [])

abbrev lead : SalesforceLead
lead = record {
  id = "00Q1";
  status = "Working";
  email = some " Jane@Example.com";
  phone = some "(415) 555-0100";
  first_name = some "Jane";
  last_name = some "Doe";
  company = none;
  title = none;
  city = none;
  state = none;
  postal_code = none;
  country = none;
  is_converted = false;
  converted_date = none;
  created_date = "2024-01-01T00:00:00.000Z";
  lead_source = none;
  campaign = some "7001";
  ttclid = some "click";
  tiktok_lead_id = none;
  external_id = none;
  ip_address = none;
  user_agent = none;
}

abbrev user : CanonicalUser
user = record {
  email = some " Jane@Example.com";
  phone = some "(415) 555-0100";
  first_name = some "Jane";
  last_name = some "Doe";
  city = none;
  state = none;
  zip = none;
  country = none;
  external_id = none;
  tiktok_lead_id = none;
}

-- the same person with the email and the phone number written in another way
abbrev respelled : CanonicalUser
respelled = record user { email = some "JANE@example.com "; phone = some "415.555.0100" }

abbrev unknown_user : CanonicalUser
unknown_user = record user { email = none; phone = none }

abbrev attribution : CanonicalAttribution
attribution = record { ttclid = some "click"; source = none; campaign_id = some "7001" }

abbrev device : CanonicalDevice
device = record { ip = none; user_agent = some "browser" }

abbrev event_named : EventValue → CanonicalEvent
event_named name = record {
  event_id = "e1";
  event_name = name;
  event_time = some 1705314600;
  event_source = "crm";
  lead = record { lead_id = "00Q1"; status = "Working"; created_at = none; converted_at = none };
  user = user;
  attribution = attribution;
  device = device;
  metadata = record { salesforce_object = "Lead"; integration_version = "1.0.0" };
  value = none;
  currency = some "USD";
}
