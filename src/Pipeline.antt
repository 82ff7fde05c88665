-- ===== src/Pipeline.antt =====
-- pipeline.ts
pub mod Accounting
pub mod Delivery
pub mod Logging
pub mod Redelivery
pub mod Settling
pub mod Total
pub mod Steps
use Prim.Native.String
use salesforce_tiktok_crm.Base.{
  ℕ, ◌/◌, String, Bool, true, false, Option, none, some, List, [], ◌∷◌, if◌then◌else◌,
}
use salesforce_tiktok_crm.Text.{non_empty}
use salesforce_tiktok_crm.Config.{Env}
use salesforce_tiktok_crm.Types.{
  SalesforceCdcEvent, SalesforceLead, FilterResult, EventValue, event_value_text, CanonicalEvent,
  TikTokEventsPayload, TikTokApiResponse, pending, sent, failed, duplicate,
}
use salesforce_tiktok_crm.Filter.{evaluate}
use salesforce_tiktok_crm.Enrichment.{extract_user, extract_attribution, extract_device}
use salesforce_tiktok_crm.Normalization.Hasher
use salesforce_tiktok_crm.Transformer.{build_payload}
use salesforce_tiktok_crm.Exec.{Exec, return, recover, ◌>>=◌, ◌>>◌}
use salesforce_tiktok_crm.Redis.{Redis}
use salesforce_tiktok_crm.World.{Outside, World, command}
use salesforce_tiktok_crm.Deduplication.{is_duplicate}
use salesforce_tiktok_crm.EventLog.{insert, update_status}
use salesforce_tiktok_crm.EventSet.{resolve}
use salesforce_tiktok_crm.Queue.{enqueue_payload}
use salesforce_tiktok_crm.Clients.Send.{send_events, static_token}

-- What the pipeline is given: the settings, the answers of the services, `toLowerCase`, SHA-256,
-- `new Date(s).getTime()` (`none` where `s` is no date), and whether it has an event set manager.
pub record Setup : Type 0 where
  pub env : Env
  pub outside : Outside
  pub lower : String → String
  pub digest : String → String
  pub date_ms : String → Option ℕ
  pub has_event_set_manager : Bool

abbrev seconds : Option ℕ → Option ℕ
seconds none = none
seconds (some ms) = some (ms / 1000)

-- `event_time`: the commit's time, or the pipeline's where there is no timestamp
unfoldable pub event_time : (String → Option ℕ) → Option String → ℕ → Option ℕ
event_time date_ms none now = some (now / 1000)
event_time date_ms (some String.[]) now = some (now / 1000)
event_time date_ms (some (String.◌∷◌ c s)) now = seconds (date_ms (String.◌∷◌ c s))

-- `campaignId || undefined`
unfoldable pub resolve_advertiser_id : String → Option String
resolve_advertiser_id campaign_id = non_empty campaign_id

-- `attribution.campaign_id ? await this.resolveAdvertiserId(…) : undefined`
unfoldable pub advertiser_of : Option String → Option String
unfolding resolve_advertiser_id
advertiser_of none = none
advertiser_of (some String.[]) = none
advertiser_of (some (String.◌∷◌ c s)) = resolve_advertiser_id (String.◌∷◌ c s)

unfoldable pub canonical_event : Setup → EventValue → Option ℕ → SalesforceLead → CanonicalEvent
canonical_event setup event_name time lead = record {
  event_id = Hasher.event_id setup.digest lead.id (event_value_text event_name) time;
  event_name = event_name;
  event_time = time;
  event_source = "crm";
  lead = record {
    lead_id = lead.id;
    status = lead.status;
    created_at = some lead.created_date;
    converted_at = lead.converted_date;
  };
  user = extract_user lead;
  attribution = extract_attribution lead;
  device = extract_device lead;
  metadata = record {
    salesforce_object = "Lead";
    integration_version = setup.env.integration_version;
  };
  value = none;
  currency = none;
}

abbrev pub payload_of : Setup → CanonicalEvent → Option String → TikTokEventsPayload
payload_of setup event event_set_id =
    build_payload setup.digest setup.lower setup.env (event ∷ []) event_set_id

module _ {R : Redis} (setup : Setup) where
  -- step 3: an error of `resolve` is logged, and the environment's event set is used
  unfoldable pub resolve_event_set : Bool → Option String → Exec (World R) (Option String)
  resolve_event_set true (some advertiser_id) =
      recover (do id ← resolve setup.outside setup.env advertiser_id; return (some id))
        (λ _. return none)
  resolve_event_set true none = return none
  resolve_event_set false advertiser_id = return none

  -- step 5
  unfoldable pub check_duplicate : String → Exec (World R) Bool
  check_duplicate event_id w = command (is_duplicate R setup.env event_id w.now) w

  -- step 8
  unfoldable pub send_or_enqueue : String → TikTokEventsPayload → Exec (World R) (Unit {0})
  send_or_enqueue event_id payload =
      recover
        (do
          response ← send_events setup.outside (static_token setup.env) payload
          update_status setup.outside event_id sent (some response) none)
        (λ error. do
          update_status setup.outside event_id failed none (some error)
          enqueue_payload setup.outside payload
          return tt)

  -- steps 5 to 8
  unfoldable pub deliver :
      Bool → CanonicalEvent → ℕ → TikTokEventsPayload → Exec (World R) (Unit {0})
  deliver true event replay_id payload = do
    insert setup.outside (record {
      event_id = event.event_id;
      event_name = event.event_name;
      lead_id = event.lead.lead_id;
      salesforce_replay_id = replay_id;
      tiktok_payload = payload;
      status = duplicate;
    })
    return tt
  deliver false event replay_id payload = do
    insert setup.outside (record {
      event_id = event.event_id;
      event_name = event.event_name;
      lead_id = event.lead.lead_id;
      salesforce_replay_id = replay_id;
      tiktok_payload = payload;
      status = pending;
    })
    send_or_enqueue event.event_id payload

  -- steps 3 to 8, of an event that passed the filter
  unfoldable pub process_passed :
      SalesforceCdcEvent → SalesforceLead → EventValue → Exec (World R) (Unit {0})
  process_passed cdc_event lead event_name = do
    event_set_id ← resolve_event_set setup.has_event_set_manager (advertiser_of lead.campaign)
    event ← λ w.
        return
          (canonical_event setup event_name
            (event_time setup.date_ms cdc_event.header.commit_timestamp w.now) lead)
          w
    is_dup ← check_duplicate event.event_id
    deliver is_dup event cdc_event.replay_id (payload_of setup event event_set_id)

  unfoldable pub process_result :
      SalesforceCdcEvent → SalesforceLead → Option EventValue → Exec (World R) (Unit {0})
  process_result cdc_event lead none = return tt
  process_result cdc_event lead (some event_name) = process_passed cdc_event lead event_name

  unfoldable pub process : SalesforceCdcEvent → SalesforceLead → Exec (World R) (Unit {0})
  process cdc_event lead =
      let result = evaluate setup.lower cdc_event in
      if result.should_process then process_result cdc_event lead result.event_type else return tt
