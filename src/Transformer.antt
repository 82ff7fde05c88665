-- ===== src/Transformer.antt =====
-- transformer/tiktok-event-builder.ts
pub mod Batches
pub mod Payload
use Prim.Native.String
use salesforce_tiktok_crm.Base.{
  ℕ, zero, suc, ◌+◌, String, Option, none, some, List, [], ◌∷◌, map, ltb, length, take, drop,
  if◌then◌else◌,
}
use salesforce_tiktok_crm.Text.{non_empty}
use salesforce_tiktok_crm.Config.{Env}
use salesforce_tiktok_crm.Types.{
  CanonicalEvent, HashedUser, EventValue, named, inherited, standard, purchase, dfo_stage_of,
  Number, TikTokUserData, TikTokEventProperties, TikTokEventData, TikTokEventsPayload,
}
use salesforce_tiktok_crm.Normalization.Hasher.{hash_user}

-- `if (s) target.field = s`: a missing or empty text leaves the field out
abbrev pub when_truthy : Option String → Option String
when_truthy none = none
when_truthy (some s) = non_empty s

unfoldable pub build_user_data : HashedUser → CanonicalEvent → TikTokUserData
build_user_data hashed event = record {
  lead_id = when_truthy event.user.tiktok_lead_id;
  email = when_truthy hashed.email;
  phone_number = when_truthy hashed.phone_number;
  external_id = when_truthy hashed.external_id;
  first_name = when_truthy hashed.first_name;
  last_name = when_truthy hashed.last_name;
  ttclid = when_truthy event.attribution.ttclid;
  ip = when_truthy event.device.ip;
  user_agent = when_truthy event.device.user_agent;
}

-- `if (event.event_name === 'Purchase')`, for a revenue property
unfoldable pub for_purchase {ℓ} : {A : Type ℓ} → EventValue → Option A → Option A
for_purchase (named (standard purchase)) v = v
for_purchase _ v = none

unfoldable pub build_properties : CanonicalEvent → TikTokEventProperties
unfolding for_purchase
build_properties event = record {
  lead_status = some event.lead.status;
  source = event.attribution.source;
  campaign_id = event.attribution.campaign_id;
  integration_version = some event.metadata.integration_version;
  dfo_stage = dfo_stage_of event.event_name;
  value = for_purchase event.event_name event.value;
  currency = for_purchase event.event_name event.currency;
}

-- `eventSetIdOverride ?? env.TIKTOK_CRM_EVENT_SET_ID ?? ''`
unfoldable pub event_set_id_or : Option String → Option String → String
event_set_id_or (some id) fallback = id
event_set_id_or none (some id) = id
event_set_id_or none none = ""

module _ (digest lower : String → String) where
  unfoldable pub build_event_data : CanonicalEvent → TikTokEventData
  unfolding build_user_data build_properties
  build_event_data event = record {
    event = event.event_name;
    event_time = event.event_time;
    event_id = event.event_id;
    user = build_user_data (hash_user digest lower event.user) event;
    properties = build_properties event;
  }

  unfoldable pub build_payload : Env → List CanonicalEvent → Option String → TikTokEventsPayload
  unfolding event_set_id_or
  build_payload env events override = record {
    event_source = "crm";
    event_source_id = event_set_id_or override env.tiktok_crm_event_set_id;
    data_entries = map build_event_data events;
  }

-- `for (let i = 0; i < events.length; i += batchSize) batches.push(events.slice(i, i + batchSize))`
-- on fuel; `none` means that the fuel ran out before the loop ended.
module _ {ℓ} {A : Type ℓ} where
  abbrev pub push_front : List A → Option (List (List A)) → Option (List (List A))
  push_front b none = none
  push_front b (some bs) = some (b ∷ bs)

  -- `xs.slice(i, i + n)`
  unfoldable pub slice : ℕ → ℕ → List A → List A
  slice i n xs = take n (drop i xs)

  unfoldable pub batches_from : ℕ → ℕ → ℕ → List A → Option (List (List A))
  unfolding slice
  batches_from zero i batch_size events = none
  batches_from (suc fuel) i batch_size events =
      let rest = batches_from fuel (i + batch_size) batch_size events in
      if ltb i (length events) then push_front (slice i batch_size events) rest else some []

  -- A loop that advances ends within one round for each event and one more.
  unfoldable pub batch_events : ℕ → List A → Option (List (List A))
  unfolding batches_from
  batch_events batch_size events = batches_from (suc (length events)) 0 batch_size events
