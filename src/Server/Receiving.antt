-- ===== src/Server/Receiving.antt =====
-- The handler of the channel's messages with the pipeline behind it.
use salesforce_tiktok_crm.Base.{
  ℕ, zero, suc, String, Bool, ◌≡◌, ◌≢◌, refl, Option, none, some, ◌⊎◌, inl, inr, ◌&&◌, not, nat_eq,
  Bool-cases,
}
use salesforce_tiktok_crm.Exec.{Result, ok, thrown, hangs, return}
use salesforce_tiktok_crm.Exec.Rules.{Run, Run-bind, Run-recover}
use salesforce_tiktok_crm.Types.{SalesforceCdcEvent, SalesforceLead}
use salesforce_tiktok_crm.Redis.{Redis}
use salesforce_tiktok_crm.World.{World}
use salesforce_tiktok_crm.World.Settled.{Responsive}
use salesforce_tiktok_crm.Pipeline.{Setup, process}
use salesforce_tiktok_crm.Pipeline.Settling.{Ready, AddsSettle}
use salesforce_tiktok_crm.Pipeline.Total.{process_total}
use salesforce_tiktok_crm.Listener.{
  Listener, RawMessage, no_header, message, LeadReply, lead, failed, Salesforce, sleep, retrieve,
  fetch_lead, deliver_lead, fetch_and_deliver, handle_raw_message, record_id,
}
use salesforce_tiktok_crm.Server.{on_event, receive}

pub LeadReply-cases :
    (r : LeadReply)
    → ((x : SalesforceLead) × (r ≡ lead x)) ⊎ ((network : Bool) × (r ≡ failed network))
LeadReply-cases (lead x) = inl (x, refl)
LeadReply-cases (failed network) = inr (network, refl)

module _ {R : Redis} (answers : Responsive R) (salesforce : Salesforce) (setup : Setup)
    (adds : AddsSettle setup.outside) where
  abbrev SharedReady : Listener (World R) → Type 0
  SharedReady l = Ready l.shared.limiter l.shared.now

  abbrev Seen : Option ℕ → Listener (World R) → Type 0
  Seen seen l = l.last_replay_id ≡ seen

  -- ends by a return or an error
  abbrev Ended : {A : Type 0} → Option ℕ → Result A × Listener (World R) → Type 0
  Ended seen p = Run (λ _. Seen seen) (λ _. Seen seen) (λ _. ⊥) p

  ended :
      {A : Type 0} (seen : Option ℕ) (r : Result A) (l : Listener (World R))
      → r ≢ hangs
      → Seen seen l
      → Ended seen (r, l)
  unfolding Run
  ended seen (ok a) l h k = k
  ended seen (thrown m) l h k = k
  ended seen hangs l h k = h refl

  Ended-ok : (seen : Option ℕ) (l : Listener (World R)) → Seen seen l → Ended seen (return tt l)
  unfolding Run
  Ended-ok seen l k = k

  abbrev FetchedReady : Option ℕ → Result (Option SalesforceLead) × Listener (World R) → Type 0
  FetchedReady seen p = Run (λ _ l. Seen seen l × SharedReady l) (λ _. Seen seen) (λ _. ⊥) p

  FetchedReady-ok :
      (seen : Option ℕ) (o : Option SalesforceLead) (l : Listener (World R))
      → Seen seen l
      → SharedReady l
      → FetchedReady seen (return o l)
  unfolding Run
  FetchedReady-ok seen o l k ready = (k, ready)

  fetched-Ready :
      (seen : Option ℕ) (n : ℕ) (l : Listener (World R))
      → Seen seen l
      → SharedReady l
      → FetchedReady seen (fetch_lead salesforce n l)
  unfolding fetch_lead retrieve sleep
  fetched-Ready seen zero l k ready = FetchedReady-ok seen none l k ready
  fetched-Ready seen (suc n) l k ready = elim (LeadReply-cases (salesforce.retrieve l.retrieves)) [
    | inl (x, h) ↦ rw h (FetchedReady-ok seen (some x) _ k ready)
    | inr (network, h) ↦ elim (Bool-cases (network && not (nat_eq n 0))) [
      | inl again ↦ rw (h, again) (fetched-Ready seen n _ k ready)
      | inr stop ↦ rw (h, stop) (FetchedReady-ok seen none _ k ready)
    ]
  ]

  deliver-Ended :
      (seen : Option ℕ) (event : SalesforceCdcEvent) (o : Option SalesforceLead)
      (l : Listener (World R))
      → Seen seen l
      → SharedReady l
      → Ended seen (deliver_lead salesforce (on_event setup) event o l)
  unfolding deliver_lead on_event Run
  deliver-Ended seen event none l k ready = k
  deliver-Ended seen event (some x) l k ready =
      ended seen (process setup event x l.shared).0 _
        (process_total answers setup adds event x l.shared ready) k

  fetch-Ended :
      (seen : Option ℕ) (event : SalesforceCdcEvent) (id : Option String) (l : Listener (World R))
      → Seen seen l
      → SharedReady l
      → Ended seen (fetch_and_deliver salesforce (on_event setup) event id l)
  unfolding fetch_and_deliver
  fetch-Ended seen event none l k ready = Ended-ok seen l k
  fetch-Ended seen event (some id) l k ready =
      Run-bind (λ _ l'. Seen seen l' × SharedReady l') _ _ _ _ _ _ (fetched-Ready seen 5 l k ready)
        (λ o l' p. deliver-Ended seen event o l' p.0 p.1)

  -- the replay id that is kept
  abbrev pub seen_after : RawMessage → Option ℕ → Option ℕ
  seen_after no_header seen = seen
  seen_after (message event) seen = some event.replay_id

  abbrev Returns : Option ℕ → Result (Unit {0}) × Listener (World R) → Type 0
  Returns seen p = Run (λ _. Seen seen) (λ _ _. ⊥) (λ _. ⊥) p

  Returns-ok : (seen : Option ℕ) (l : Listener (World R)) → Seen seen l → Returns seen (ok tt, l)
  unfolding Run
  Returns-ok seen l k = k

  receive-Returns :
      (m : RawMessage) (l : Listener (World R))
      → SharedReady l
      → Returns (seen_after m l.last_replay_id) (receive salesforce setup m l)
  unfolding receive handle_raw_message
  receive-Returns no_header l ready = Returns-ok _ l refl
  receive-Returns (message event) l ready =
      Run-recover _ _ (λ _. Seen (some event.replay_id)) _ _ _ _
        (fetch-Ended (some event.replay_id) event (record_id event.header.record_ids) _ refl ready)
        (λ m l' k. Returns-ok _ l' k)

  returned :
      (seen : Option ℕ) (r : Result (Unit {0})) (l : Listener (World R))
      → Returns seen (r, l)
      → (r ≡ ok tt) × Seen seen l
  unfolding Run
  returned seen (ok tt) l k = (refl, k)
  returned seen (thrown m) l k = absurd k
  returned seen hangs l k = absurd k

  -- Where the commands of Redis and the calls of BullMQ's `add` return or throw, and the rate limiter
  -- grants at least one token a second and was not refilled in the future, the handler of a message
  -- returns, whatever the
  -- message and whatever Salesforce, Postgres, TikTok and the queue answer, and keeps the replay id
  -- of a message that has a header.
  pub receive_total :
      (m : RawMessage) (l : Listener (World R))
      → Ready l.shared.limiter l.shared.now
      → ((receive salesforce setup m l).0 ≡ ok tt)
        × ((receive salesforce setup m l).1.last_replay_id ≡ seen_after m l.last_replay_id)
  receive_total m l ready = returned _ _ _ (receive-Returns m l ready)
