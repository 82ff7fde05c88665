-- ===== src/Server.antt =====
-- server.ts: the handler that joins the listener to the pipeline.
pub mod Answering
pub mod Lifecycle
pub mod Receiving
pub mod Routing
pub mod Serving
use salesforce_tiktok_crm.Exec.{Exec}
use salesforce_tiktok_crm.Redis.{Redis}
use salesforce_tiktok_crm.Types.{SalesforceCdcEvent, SalesforceLead}
use salesforce_tiktok_crm.World.{World}
use salesforce_tiktok_crm.Pipeline.{Setup, process}
use salesforce_tiktok_crm.Listener.{Listener, RawMessage, Salesforce, handle_raw_message}

module _ {R : Redis} where
  -- `await pipeline.process(cdcEvent, lead)`, on the state that is shared
  unfoldable pub on_event :
      Setup → SalesforceCdcEvent → SalesforceLead → Exec (Listener (World R)) (Unit {0})
  on_event setup cdc_event lead l =
      let (r, w) = process setup cdc_event lead l.shared in (r, record l { shared = w })

  -- a message of the channel, with that handler
  unfoldable pub receive : Salesforce → Setup → RawMessage → Exec (Listener (World R)) (Unit {0})
  unfolding handle_raw_message on_event
  receive salesforce setup m = handle_raw_message salesforce (on_event setup) m
