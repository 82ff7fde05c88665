-- ===== src/Examples/Sending.antt =====
-- Scores, hashes, payloads, batches and the client on sample data.
use mathlib.Core.List.{flatten}
use salesforce_tiktok_crm.Base.{
  ℕ, ◌+◌, ◌*◌, ◌≤◌, ◌<◌, String, true, false, ◌≡◌, refl, ◌↔◌, ◌⊎◌, Option, none, some, List, [],
  ◌∷◌, arith,
}
use salesforce_tiktok_crm.Text.{trim, includes, keep_digits}
use salesforce_tiktok_crm.Text.Case.{ascii_lower, ascii_lower-CaseLaws}
use salesforce_tiktok_crm.Types.{named, standard, contact, event_name_text}
use salesforce_tiktok_crm.Enrichment.{present}
use salesforce_tiktok_crm.Enrichment.Score.{FewerSignals}
use salesforce_tiktok_crm.Normalization.{email, phone, name_field, external_id, e164}
use salesforce_tiktok_crm.Normalization.Hasher.{sha256, hash_user}
use salesforce_tiktok_crm.Normalization.Hasher.Keys.{event_id-injective}
use salesforce_tiktok_crm.Normalization.Hasher.Matching.{normalized, hash_user-normalized}
use salesforce_tiktok_crm.Transformer.{build_event_data, batch_events, batches_from}
use salesforce_tiktok_crm.Transformer.Payload.{SameHashes, build_event_data-SameHashes}
use salesforce_tiktok_crm.Transformer.Batches.{Chunked, batch_events_total, batches_from-zero}
use salesforce_tiktok_crm.Clients.RateLimiter.{RateLimiter, new, grants, acquire_from}
use salesforce_tiktok_crm.Clients.RateLimiter.Burst.{IsValid, grants-burst}
use salesforce_tiktok_crm.Clients.RateLimiter.Waiting.{acquire_total, acquire-zero}
use salesforce_tiktok_crm.Clients.Retry.{retry_condition}
use salesforce_tiktok_crm.Clients.Retry.Policy.{retry_condition_iff}
use salesforce_tiktok_crm.Examples.{user, respelled, unknown_user, attribution, device, event_named}

abbrev digest : String → String
digest s = s

fewer : FewerSignals unknown_user user attribution attribution device device
unfolding present trim
fewer = record {
  lead_id = λ h. h;
  email = λ h. refl;
  phone = λ h. refl;
  external_id = λ h. h;
  ttclid = λ h. h;
  ip = λ h. h;
  user_agent = λ h. h;
}

abbrev lead_id : String
lead_id = "00Q1"

abbrev time : Option ℕ
time = some 1705314600

event_id-injective_example :
    (lead_id ≡ lead_id)
    × (event_name_text (standard contact) ≡ event_name_text (standard contact))
    × (time ≡ time)
event_id-injective_example =
    event_id-injective digest lead_id lead_id (standard contact) (standard contact) time time
      (λ h. h) refl

hash_user-normalized_example :
    hash_user digest ascii_lower (normalized ascii_lower user) ≡ hash_user digest ascii_lower user
hash_user-normalized_example = hash_user-normalized digest ascii_lower user ascii_lower-CaseLaws

same_hashes : SameHashes digest ascii_lower user respelled
unfolding hash_user email phone name_field external_id sha256 ascii_lower trim includes keep_digits
    e164
same_hashes = record {
  lead_id = refl;
  email = refl;
  phone_number = refl;
  external_id = refl;
  first_name = refl;
  last_name = refl;
}

build_event_data-SameHashes_example :
    build_event_data digest ascii_lower
      (record (event_named (named (standard contact))) { user = user })
    ≡ build_event_data digest ascii_lower
        (record (event_named (named (standard contact))) { user = respelled })
build_event_data-SameHashes_example =
    build_event_data-SameHashes digest ascii_lower (event_named (named (standard contact))) user
      respelled same_hashes

batch_events_total_example :
    (out : List (List ℕ)) × (batch_events 2 (5 ∷ 6 ∷ 7 ∷ []) ≡ some out)
    × (flatten out ≡ 5 ∷ 6 ∷ 7 ∷ [])
    × Chunked 2 out
batch_events_total_example = batch_events_total 2 (5 ∷ 6 ∷ 7 ∷ []) (omega arith)

batches_from-zero_example : batches_from {A = ℕ} 3 0 0 (5 ∷ 6 ∷ []) ≡ none
batches_from-zero_example = batches_from-zero 3 5 (6 ∷ [])

abbrev limiter : RateLimiter
limiter = record { tokens = 0; last_refill = 100; max_tokens = 10; refill_interval_ms = 1000 }

limiter-IsValid : IsValid limiter
limiter-IsValid = record { within = omega arith; second = refl }

grants-burst_example : grants (900 ∷ 1100 ∷ 1899 ∷ []) limiter ≤ 2 * 10
grants-burst_example =
    grants-burst (900 ∷ 1100 ∷ 1899 ∷ []) 900 limiter limiter-IsValid
      ((omega arith, omega arith), ((omega arith, omega arith), ((omega arith, omega arith), tt)))

acquire_total_example :
    (l' : RateLimiter) × (later : ℕ) × (acquire_from 2 200 limiter ≡ some (l', later))
    × (later ≤ 200 + 1000)
    × (l'.tokens < l'.max_tokens)
acquire_total_example = acquire_total 200 limiter limiter-IsValid (omega arith) (omega arith)

acquire-zero_example : acquire_from 5 0 (new 0 0) ≡ none
acquire-zero_example = acquire-zero 5 0 (new 0 0) (unfold new in refl) (unfold new in refl)

abbrev status : ℕ
status = 503

retry_condition_iff_example :
    ((retry_condition (record { response_status = some status; is_network_error = false }) ≡ true)
      ↔ ((status ≡ 429) ⊎ (500 ≤ status)))
    × ((retry_condition (record { response_status = none; is_network_error = false }) ≡ true)
        ↔ (false ≡ true))
retry_condition_iff_example = retry_condition_iff status false
