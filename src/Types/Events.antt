-- ===== src/Types/Events.antt =====
-- types/index.ts: the TikTok event names, their stages, and the result of the filter.
use salesforce_tiktok_crm.Base.{String, Bool, Option, some, none}

pub data TikTokStandardEvent : Type 0 where
  submit_form complete_registration contact find_location schedule : TikTokStandardEvent
  submit_application application_approval subscribe add_to_wishlist view_content search_event :
      TikTokStandardEvent
  purchase add_to_cart initiate_checkout add_payment_info start_trial download customize_product :
      TikTokStandardEvent

pub data TikTokEventName : Type 0 where
  standard : TikTokStandardEvent → TikTokEventName
  lead_created lead_contacted lead_qualified lead_converted : TikTokEventName

pub data DfoFunnelStage : Type 0 where
  stage_1 stage_2 stage_3 stage_4 : DfoFunnelStage

-- the literal of each name
unfoldable pub standard_name : TikTokStandardEvent → String
standard_name submit_form = "SubmitForm"
standard_name complete_registration = "CompleteRegistration"
standard_name contact = "Contact"
standard_name find_location = "FindLocation"
standard_name schedule = "Schedule"
standard_name submit_application = "SubmitApplication"
standard_name application_approval = "ApplicationApproval"
standard_name subscribe = "Subscribe"
standard_name add_to_wishlist = "AddToWishlist"
standard_name view_content = "ViewContent"
standard_name search_event = "Search"
standard_name purchase = "Purchase"
standard_name add_to_cart = "AddToCart"
standard_name initiate_checkout = "InitiateCheckout"
standard_name add_payment_info = "AddPaymentInfo"
standard_name start_trial = "StartTrial"
standard_name download = "Download"
standard_name customize_product = "CustomizeProduct"

unfoldable pub event_name_text : TikTokEventName → String
unfolding standard_name
event_name_text (standard e) = standard_name e
event_name_text lead_created = "LeadCreated"
event_name_text lead_contacted = "LeadContacted"
event_name_text lead_qualified = "LeadQualified"
event_name_text lead_converted = "LeadConverted"

unfoldable pub event_to_dfo_stage : TikTokStandardEvent → DfoFunnelStage
event_to_dfo_stage submit_form = stage_1
event_to_dfo_stage view_content = stage_1
event_to_dfo_stage search_event = stage_1
event_to_dfo_stage find_location = stage_1
event_to_dfo_stage contact = stage_2
event_to_dfo_stage schedule = stage_2
event_to_dfo_stage add_to_wishlist = stage_2
event_to_dfo_stage add_to_cart = stage_2
event_to_dfo_stage initiate_checkout = stage_2
event_to_dfo_stage complete_registration = stage_3
event_to_dfo_stage submit_application = stage_3
event_to_dfo_stage add_payment_info = stage_3
event_to_dfo_stage download = stage_3
event_to_dfo_stage customize_product = stage_3
event_to_dfo_stage purchase = stage_4
event_to_dfo_stage application_approval = stage_4
event_to_dfo_stage subscribe = stage_4
event_to_dfo_stage start_trial = stage_4

-- What a variable of type `TikTokEventName` holds at run time: a name, or a value that a lookup in
-- `STATUS_TO_EVENT` inherited from `Object.prototype`, shown by its conversion to a string.
pub data EventValue : Type 0 where
  named : TikTokEventName → EventValue
  inherited : String → EventValue

-- `${eventName}`
unfoldable pub event_value_text : EventValue → String
unfolding event_name_text
event_value_text (named n) = event_name_text n
event_value_text (inherited s) = s

-- `EVENT_TO_DFO_STAGE[event_name as TikTokStandardEvent]`: neither the four legacy names nor an
-- inherited value is a key
unfoldable pub dfo_stage_of : EventValue → Option DfoFunnelStage
unfolding event_to_dfo_stage
dfo_stage_of (named (standard e)) = some (event_to_dfo_stage e)
dfo_stage_of (named lead_created) = none
dfo_stage_of (named lead_contacted) = none
dfo_stage_of (named lead_qualified) = none
dfo_stage_of (named lead_converted) = none
dfo_stage_of (inherited s) = none

pub record FilterResult : Type 0 where
  pub should_process : Bool
  pub reason : String
  pub event_type : Option EventValue
