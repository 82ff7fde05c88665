-- ===== src/Normalization/Hasher.antt =====
-- normalization/hasher.ts. The SHA-256 digest in hexadecimal, of Node's `crypto`, is the parameter
-- `digest`; `toLowerCase` is `lower`.
pub mod Keys
pub mod Matching
use Prim.Native.String
use salesforce_tiktok_crm.Base.{ℕ, String, Option, none, some}
use salesforce_tiktok_crm.Text.Decimal.{show}
use salesforce_tiktok_crm.Types.{CanonicalUser, HashedUser}
use salesforce_tiktok_crm.Normalization.{email, phone, name_field, zip, geo, external_id}

-- `${eventTimestamp}`, where `none` is NaN
unfoldable pub timestamp_text : Option ℕ → String
timestamp_text none = "NaN"
timestamp_text (some t) = show t

-- `${leadId}:${eventType}:${eventTimestamp}`
unfoldable pub event_key : String → String → Option ℕ → String
unfolding timestamp_text
event_key lead_id event_type timestamp =
    String.◌++◌ (String.◌++◌ lead_id (String.◌∷◌ ":" event_type))
      (String.◌∷◌ ":" (timestamp_text timestamp))

module _ (digest : String → String) where
  unfoldable pub sha256 : Option String → Option String
  sha256 none = none
  sha256 (some String.[]) = none
  sha256 (some (String.◌∷◌ c s)) = some (digest (String.◌∷◌ c s))

  unfoldable pub event_id : String → String → Option ℕ → String
  event_id lead_id event_type timestamp = digest (event_key lead_id event_type timestamp)

  unfoldable pub hash_user : (String → String) → CanonicalUser → HashedUser
  hash_user lower user = record {
    email = sha256 (email lower user.email);
    phone_number = sha256 (phone user.phone "1");
    first_name = sha256 (name_field lower user.first_name);
    last_name = sha256 (name_field lower user.last_name);
    city = sha256 (geo lower user.city);
    state = sha256 (geo lower user.state);
    zip = sha256 (zip user.zip);
    country = sha256 (geo lower user.country);
    external_id = sha256 (external_id user.external_id);
  }
