-- ===== src/Enrichment.antt =====
-- enrichment/identity-enrichment.ts
pub mod Score
use salesforce_tiktok_crm.Base.{
  ℕ, ◌+◌, String, Bool, Option, some, none, true, false, leb, ltb, if◌then◌else◌, not,
}
use salesforce_tiktok_crm.Text.{trim, is_empty}
use salesforce_tiktok_crm.Types.{
  SalesforceLead, CanonicalUser, CanonicalAttribution, CanonicalDevice,
}

unfoldable pub extract_user : SalesforceLead → CanonicalUser
extract_user lead = record {
  email = lead.email;
  phone = lead.phone;
  first_name = lead.first_name;
  last_name = lead.last_name;
  city = lead.city;
  state = lead.state;
  zip = lead.postal_code;
  country = lead.country;
  external_id = lead.external_id;
  tiktok_lead_id = lead.tiktok_lead_id;
}

unfoldable pub extract_attribution : SalesforceLead → CanonicalAttribution
extract_attribution lead = record {
  ttclid = lead.ttclid;
  source = lead.lead_source;
  campaign_id = lead.campaign;
}

unfoldable pub extract_device : SalesforceLead → CanonicalDevice
extract_device lead = record { ip = lead.ip_address; user_agent = lead.user_agent }

pub data MatchRate : Type 0 where
  above_70 from_40_to_70 from_20_to_40 below_20 : MatchRate

pub record IdentitySignalQuality : Type 0 where
  pub score : ℕ
  pub has_tiktok_lead_id : Bool
  pub has_email : Bool
  pub has_phone : Bool
  pub has_ttclid : Bool
  pub has_external_id : Bool
  pub has_ip : Bool
  pub has_user_agent : Bool
  pub estimated_match_rate : MatchRate

-- `Boolean(s?.trim())`
unfoldable pub present : Option String → Bool
present none = false
present (some s) = not (is_empty (trim s))

unfoldable pub weight : Bool → ℕ → ℕ
weight true n = n
weight false n = 0

unfoldable pub match_rate : ℕ → MatchRate
match_rate score =
    if leb 70 score
    then above_70
    else if leb 45 score
    then from_40_to_70
    else if leb 20 score
    then from_20_to_40
    else below_20

unfoldable pub score_signals :
    CanonicalUser → CanonicalAttribution → CanonicalDevice → IdentitySignalQuality
unfolding weight match_rate present
score_signals user attribution device =
    let has_tiktok_lead_id = present user.tiktok_lead_id in
    let has_email = present user.email in
    let has_phone = present user.phone in
    let has_ttclid = present attribution.ttclid in
    let has_external_id = present user.external_id in
    let has_ip = present device.ip in
    let has_user_agent = present device.user_agent in
    let score =
      weight has_tiktok_lead_id 40
      + weight has_email 30
      + weight has_phone 20
      + weight has_ttclid 15
      + weight has_external_id 10
      + weight has_ip 3
      + weight has_user_agent 2 in
    record {
      score = score;
      has_tiktok_lead_id = has_tiktok_lead_id;
      has_email = has_email;
      has_phone = has_phone;
      has_ttclid = has_ttclid;
      has_external_id = has_external_id;
      has_ip = has_ip;
      has_user_agent = has_user_agent;
      estimated_match_rate = match_rate score;
    }
