-- ===== src/Listener.antt =====
-- listeners/salesforce-cdc.ts, over the state that the handler of its events shares. Salesforce is a
-- stream of answers for each kind of call, and a sleep moves the time on by what it asks for.
pub mod Connecting
use Prim.Native.String
use salesforce_tiktok_crm.Base.{
  ℕ, zero, suc, ◌+◌, String, Bool, true, false, ◌&&◌, not, nat_eq, Option, none, some, List, [],
  ◌∷◌, if◌then◌else◌,
}
use salesforce_tiktok_crm.Text.{non_empty}
use salesforce_tiktok_crm.Exec.{Result, Exec, ok, return, throw, recover, ◌>>=◌, ◌>>◌}
use salesforce_tiktok_crm.Types.{SalesforceCdcEvent, SalesforceLead}

-- The call for an access token: granted, an answer that is not ok, or no answer.
pub data AuthReply : Type 0 where
  granted : AuthReply
  refused unreachable : String → AuthReply

-- `retrieve`: a record, or an error, with `EADDRNOTAVAIL` told apart.
pub data LeadReply : Type 0 where
  lead : SalesforceLead → LeadReply
  failed : (network : Bool) → LeadReply

pub record Salesforce : Type 0 where
  pub authenticate : ℕ → AuthReply
  pub retrieve : ℕ → LeadReply

-- The listener, and what it has called for; `none` is the replay id -1.
pub record Listener (S : Type 0) : Type 0 where
  pub last_replay_id : Option ℕ
  pub subscribed : Bool
  pub connects : ℕ
  pub retrieves : ℕ
  pub slept : ℕ
  pub shared : S

-- A message of the channel: one that has no header, or one that has.
pub data RawMessage : Type 0 where
  no_header : RawMessage
  message : SalesforceCdcEvent → RawMessage

-- `header.recordIds?.[0]`, where it is not empty
abbrev pub record_id : Option (List String) → Option String
record_id none = none
record_id (some []) = none
record_id (some (id ∷ ids)) = non_empty id

module _ {S : Type 0} (salesforce : Salesforce) where
  unfoldable pub sleep : ℕ → Exec (Listener S) (Unit {0})
  sleep ms l = return tt (record l { slept = l.slept + ms })

  abbrev authenticated : AuthReply → Exec (Listener S) (Unit {0})
  authenticated granted l = return tt (record l { subscribed = true })
  authenticated (refused text) l = throw (String.◌++◌ "Salesforce auth failed: " text) l
  authenticated (unreachable text) l = throw text l

  -- `_connect`, which subscribes once it has a token
  unfoldable pub connect_once : Exec (Listener S) (Unit {0})
  connect_once l =
      authenticated (salesforce.authenticate l.connects) (record l { connects = suc l.connects })

  -- the loop of `connect`, with the attempts that are left
  unfoldable pub connect : (attempts delay_ms : ℕ) → Exec (Listener S) (Unit {0})
  unfolding connect_once sleep
  connect zero delay_ms = return tt
  connect (suc zero) delay_ms = recover connect_once (λ e. throw e)
  connect (suc (suc attempts)) delay_ms =
      recover connect_once (λ e. sleep delay_ms >> connect (suc attempts) delay_ms)

  -- one call of `retrieve`
  unfoldable pub retrieve : Exec (Listener S) LeadReply
  retrieve l = return (salesforce.retrieve l.retrieves) (record l { retrieves = suc l.retrieves })

  -- the loop of `fetchLead`, with the attempts that are left
  unfoldable pub fetch_lead : (retries : ℕ) → Exec (Listener S) (Option SalesforceLead)
  unfolding retrieve sleep
  fetch_lead zero = return none
  fetch_lead (suc retries) = do
    answer ← retrieve
    elim answer [
      | lead l ↦ return (some l)
      | failed network ↦
          let again = sleep 3000 >> fetch_lead retries in
          if network && not (nat_eq retries 0) then again else return none
    ]

  unfoldable pub deliver_lead :
      (SalesforceCdcEvent → SalesforceLead → Exec (Listener S) (Unit {0}))
      → SalesforceCdcEvent
      → Option SalesforceLead
      → Exec (Listener S) (Unit {0})
  deliver_lead on_event event none = return tt
  deliver_lead on_event event (some l) = on_event event l

  unfoldable pub fetch_and_deliver :
      (SalesforceCdcEvent → SalesforceLead → Exec (Listener S) (Unit {0}))
      → SalesforceCdcEvent
      → Option String
      → Exec (Listener S) (Unit {0})
  unfolding deliver_lead
  fetch_and_deliver on_event event none = return tt
  fetch_and_deliver on_event event (some id) = do l ← fetch_lead 5; deliver_lead on_event event l

  -- Every error is logged and goes no further.
  unfoldable pub handle_raw_message :
      (SalesforceCdcEvent → SalesforceLead → Exec (Listener S) (Unit {0}))
      → RawMessage
      → Exec (Listener S) (Unit {0})
  unfolding fetch_and_deliver
  handle_raw_message on_event no_header l = return tt l
  handle_raw_message on_event (message event) l =
      recover (fetch_and_deliver on_event event (record_id event.header.record_ids))
        (λ _. return tt) (record l { last_replay_id = some event.replay_id })

  unfoldable pub disconnect : Exec (Listener S) (Unit {0})
  disconnect l = return tt (record l { subscribed = false })
