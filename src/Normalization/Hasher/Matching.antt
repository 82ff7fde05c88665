-- ===== src/Normalization/Hasher/Matching.antt =====
-- Two spellings of one identity have one hash.
use salesforce_tiktok_crm.Base.{String, Option, ◌≡◌}
use salesforce_tiktok_crm.Text.Case.{CaseLaws}
use salesforce_tiktok_crm.Types.{CanonicalUser}
use salesforce_tiktok_crm.Normalization.{email, phone, name_field, zip, geo, external_id}
use salesforce_tiktok_crm.Normalization.Laws.{normalizers_idem}
use salesforce_tiktok_crm.Normalization.Phone.{phone_idem}
use salesforce_tiktok_crm.Normalization.Hasher.{sha256, hash_user}

-- The user with each hashed field in its normal form.
abbrev pub normalized : (String → String) → CanonicalUser → CanonicalUser
normalized lower user = record user {
  email = email lower user.email;
  phone = phone user.phone "1";
  first_name = name_field lower user.first_name;
  last_name = name_field lower user.last_name;
  city = geo lower user.city;
  state = geo lower user.state;
  zip = zip user.zip;
  country = geo lower user.country;
  external_id = external_id user.external_id;
}

-- Hashing sees a user only through the normal form of the fields: a user whose fields were
-- normalised before has the same hashes, so two spellings with one normal form match.
pub hash_user-normalized :
    (digest lower : String → String) (user : CanonicalUser)
    → CaseLaws lower
    → hash_user digest lower (normalized lower user) ≡ hash_user digest lower user
unfolding hash_user
hash_user-normalized digest lower user laws =
    let idem = λ (raw : Option String). normalizers_idem lower laws raw in
    λ i. record {
      email = sha256 digest ((idem user.email).0 i);
      phone_number = sha256 digest (phone_idem user.phone i);
      first_name = sha256 digest ((idem user.first_name).1 i);
      last_name = sha256 digest ((idem user.last_name).1 i);
      city = sha256 digest ((idem user.city).2 i);
      state = sha256 digest ((idem user.state).2 i);
      zip = sha256 digest ((idem user.zip).3 i);
      country = sha256 digest ((idem user.country).2 i);
      external_id = sha256 digest ((idem user.external_id).4 i);
    }
