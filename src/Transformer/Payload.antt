-- ===== src/Transformer/Payload.antt =====
-- What a payload carries of an event.
use salesforce_tiktok_crm.Base.{
  String, ◌≡◌, refl, ap, Option, none, some, List, [], ◌∷◌, map, arith, ◌⊎◌, inl, inr, ◌≢◌,
}
use salesforce_tiktok_crm.Config.{Env}
use salesforce_tiktok_crm.Types.{
  CanonicalEvent, CanonicalUser, Number, EventValue, named, standard, purchase, TikTokEventData,
  TikTokEventsPayload, TikTokUserData, dfo_stage_of, stage_4,
}
use salesforce_tiktok_crm.Normalization.Hasher.{hash_user}
use salesforce_tiktok_crm.Transformer.{
  when_truthy, build_properties, build_event_data, build_payload, for_purchase,
}

-- The event ids of a payload, in order.
unfoldable pub event_ids : TikTokEventsPayload → List String
event_ids p = map (λ (d : TikTokEventData). d.event_id) p.data_entries

event_ids-map :
    (digest lower : String → String) (events : List CanonicalEvent)
    → map (λ (d : TikTokEventData). d.event_id) (map (build_event_data digest lower) events)
      ≡ map (λ (e : CanonicalEvent). e.event_id) events
unfolding build_event_data
event_ids-map digest lower [] = refl
event_ids-map digest lower (e ∷ es) = ap (◌∷◌ e.event_id) (event_ids-map digest lower es)

-- A payload has the ids of its events, in order.
pub event_ids-build_payload :
    (digest lower : String → String) (env : Env) (events : List CanonicalEvent)
    (override : Option String)
    → event_ids (build_payload digest lower env events override)
      ≡ map (λ (e : CanonicalEvent). e.event_id) events
unfolding event_ids build_payload
event_ids-build_payload digest lower env events override = event_ids-map digest lower events

-- The user as another person's: the five identity fields that are hashed and sent are the same
-- after hashing, and so is the TikTok lead id.
pub record SameHashes (digest lower : String → String) (user user' : CanonicalUser) : Type 0 where
  pub lead_id : user.tiktok_lead_id ≡ user'.tiktok_lead_id
  pub email : (hash_user digest lower user).email ≡ (hash_user digest lower user').email
  pub phone_number :
      (hash_user digest lower user).phone_number ≡ (hash_user digest lower user').phone_number
  pub external_id :
      (hash_user digest lower user).external_id ≡ (hash_user digest lower user').external_id
  pub first_name :
      (hash_user digest lower user).first_name ≡ (hash_user digest lower user').first_name
  pub last_name : (hash_user digest lower user).last_name ≡ (hash_user digest lower user').last_name

-- What is sent of an event depends on the personal data of its user through five hashes alone:
-- users with the same hashes and the same TikTok lead id give the same entry. The raw email, phone
-- number, names and external id, and the city, state, zip code and country, are not sent.
pub build_event_data-SameHashes :
    (digest lower : String → String) (event : CanonicalEvent) (user user' : CanonicalUser)
    → SameHashes digest lower user user'
    → build_event_data digest lower (record event { user = user })
      ≡ build_event_data digest lower (record event { user = user' })
unfolding build_event_data
build_event_data-SameHashes digest lower event user user' same = λ i. record {
  event = event.event_name;
  event_time = event.event_time;
  event_id = event.event_id;
  user = record {
    lead_id = when_truthy (same.lead_id i);
    email = when_truthy (same.email i);
    phone_number = when_truthy (same.phone_number i);
    external_id = when_truthy (same.external_id i);
    first_name = when_truthy (same.first_name i);
    last_name = when_truthy (same.last_name i);
    ttclid = when_truthy event.attribution.ttclid;
    ip = when_truthy event.device.ip;
    user_agent = when_truthy event.device.user_agent;
  };
  properties = build_properties event;
}

abbrev NotEmpty : Option String → Type 0
NotEmpty field = field ≢ some ""

when_truthy-NotEmpty : (s : Option String) → NotEmpty (when_truthy s)
when_truthy-NotEmpty none h = cc
when_truthy-NotEmpty (some String.[]) h = cc
when_truthy-NotEmpty (some (String.◌∷◌ c s)) h = cc

-- No field of the user that is sent is an empty text.
pub record HasNoEmptyField (user : TikTokUserData) : Type 0 where
  pub lead_id : NotEmpty user.lead_id
  pub email : NotEmpty user.email
  pub phone_number : NotEmpty user.phone_number
  pub external_id : NotEmpty user.external_id
  pub ttclid : NotEmpty user.ttclid
  pub ip : NotEmpty user.ip
  pub user_agent : NotEmpty user.user_agent
  pub first_name : NotEmpty user.first_name
  pub last_name : NotEmpty user.last_name

-- Whatever the digest and the lead's fields, no user field of an entry is an empty text.
pub build_event_data-HasNoEmptyField :
    (digest lower : String → String) (event : CanonicalEvent)
    → HasNoEmptyField (build_event_data digest lower event).user
unfolding build_event_data
build_event_data-HasNoEmptyField digest lower event = record {
  lead_id = when_truthy-NotEmpty _;
  email = when_truthy-NotEmpty _;
  phone_number = when_truthy-NotEmpty _;
  external_id = when_truthy-NotEmpty _;
  ttclid = when_truthy-NotEmpty _;
  ip = when_truthy-NotEmpty _;
  user_agent = when_truthy-NotEmpty _;
  first_name = when_truthy-NotEmpty _;
  last_name = when_truthy-NotEmpty _;
}

for_purchase_cases :
    (e : EventValue)
    → (e ≡ named (standard purchase))
      ⊎ ((e ≢ named (standard purchase))
          × ((v : Option Number) → for_purchase e v ≡ none)
          × ((v : Option String) → for_purchase e v ≡ none))
unfolding for_purchase
for_purchase_cases (named (standard purchase)) = inl refl
for_purchase_cases _ = inr (λ h. ground arith, λ v. refl, λ v. refl)

for_purchase-purchase {ℓ} :
    {A : Type ℓ} (e : EventValue) (v : Option A)
    → e ≡ named (standard purchase)
    → for_purchase e v ≡ v
unfolding for_purchase
for_purchase-purchase e v h = rw h refl

purchase-stage : (e : EventValue) → e ≡ named (standard purchase) → dfo_stage_of e ≡ some stage_4
unfolding dfo_stage_of
purchase-stage e h = rw h refl

-- An event is a Purchase, which has stage 4 and is sent with the value and the currency that the
-- event holds; or it is no Purchase, and is sent with neither.
pub build_properties-revenue :
    (event : CanonicalEvent)
    → ((event.event_name ≡ named (standard purchase))
        × ((build_properties event).dfo_stage ≡ some stage_4)
        × ((build_properties event).value ≡ event.value)
        × ((build_properties event).currency ≡ event.currency))
      ⊎ ((event.event_name ≢ named (standard purchase))
          × ((build_properties event).value ≡ none)
          × ((build_properties event).currency ≡ none))
unfolding build_properties
build_properties-revenue event = elim (for_purchase_cases event.event_name) [
  | inl is_purchase ↦ inl (
    is_purchase,
    purchase-stage event.event_name is_purchase,
    for_purchase-purchase event.event_name event.value is_purchase,
    for_purchase-purchase event.event_name event.currency is_purchase,
  )
  | inr (other, no_value, no_currency) ↦
      inr (other, no_value event.value, no_currency event.currency)
]
