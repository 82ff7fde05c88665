-- ===== src/Pipeline/Settling.antt =====
-- The steps that insert, send and enqueue settle.
use salesforce_tiktok_crm.Base.{ℕ, ◌≤◌, String, Option, none, some, nat_eq, Bool-cases, inl, inr}
use salesforce_tiktok_crm.Config.{Env}
use salesforce_tiktok_crm.Types.{
  TikTokEventsPayload, TikTokApiResponse, EventLogStatus, sent, failed,
}
use salesforce_tiktok_crm.Exec.{return, go_on, ◌>>=◌, ◌>>◌}
use salesforce_tiktok_crm.Exec.Rules.{Run}
use salesforce_tiktok_crm.Redis.{Redis}
use salesforce_tiktok_crm.World.{
  Outside, World, HttpOutcome, response, failure, Job, AddOutcome, job_added, add_failed,
  add_unanswered, IsSettled,
}
use salesforce_tiktok_crm.World.Settled.{
  Settles, Settles-return, Settles-bind, Settles-recover, query-Settles,
}
use salesforce_tiktok_crm.Clients.RateLimiter.{RateLimiter}
use salesforce_tiktok_crm.Clients.RateLimiter.Burst.{IsValid}
use salesforce_tiktok_crm.Clients.RateLimiter.Waiting.{acquire_total}
use salesforce_tiktok_crm.Clients.Send.{
  acquire, static_token, token_or_throw, post, posted, check_code, send_events,
}
use salesforce_tiktok_crm.EventLog.{
  InsertParams, on_log, new_row, insert_row, update_rows, updated, insert, update_status,
}
use salesforce_tiktok_crm.Queue.{enqueue_payload, added}
use salesforce_tiktok_crm.Pipeline.{Setup, send_or_enqueue}

-- A limiter of at least one token a second, whose last refill is not in the future.
abbrev pub Ready : RateLimiter → ℕ → Type 0
Ready l now = IsValid l × (1 ≤ l.max_tokens) × (l.last_refill ≤ now)

-- Every call of BullMQ's `add` settles.
abbrev pub AddsSettle : Outside → Type 0
AddsSettle outside = (n : ℕ) → IsSettled (outside.add n)

abbrev pub Always : RateLimiter → ℕ → Type 0
Always l now = Unit {0}

module _ {R : Redis} where
  check_code-Settles :
      (result : TikTokApiResponse) (w : World R) → Settles Always (check_code result w)
  unfolding check_code Run
  check_code-Settles result w = elim (Bool-cases (nat_eq result.code 0)) [
    | inl zero ↦ rw zero tt
    | inr other ↦ rw other tt
  ]

  posted-Settles :
      (o : HttpOutcome) (w : World R)
      → Settles Always (go_on (posted o w).0 (posted o w).1 check_code)
  unfolding Run
  posted-Settles (response result) w = check_code-Settles result w
  posted-Settles (failure m) w = tt

  token-Settles :
      (outside : Outside) (payload : TikTokEventsPayload) (o : Option String) (w : World R)
      → Settles Always (
          go_on
            (token_or_throw o w).0
            (token_or_throw o w).1
            (λ token. post outside token payload >>= check_code))
  unfolding Run post
  token-Settles outside payload none w = tt
  token-Settles outside payload (some String.[]) w = tt
  token-Settles outside payload (some (String.◌∷◌ c s)) w = posted-Settles (outside.post w.posts) _

  acquire-Settles : (w : World R) → Ready w.limiter w.now → Settles Always (acquire w)
  unfolding acquire Run
  acquire-Settles w (valid, some_token, past) =
      let (l, later, returns, within, taken) =
        acquire_total w.now w.limiter valid some_token past in
      rw returns tt

  send_events-Settles :
      (outside : Outside) (env : Env) (payload : TikTokEventsPayload) (w : World R)
      → Ready w.limiter w.now
      → Settles Always (send_events outside (static_token env) payload w)
  unfolding send_events static_token
  send_events-Settles outside env payload w ready =
      Settles-bind Always _ _ _ (acquire-Settles w ready)
        (λ _ w' k. token-Settles outside payload env.tiktok_access_token w')

  added-Settles :
      (outside : Outside) (o : AddOutcome) (job : Job) (ids : String) (w : World R)
      → IsSettled o
      → Settles Always ((added outside o job >> return ids >> return tt) w)
  unfolding Run
  added-Settles outside job_added job ids w h = tt
  added-Settles outside (add_failed m) job ids w h = tt
  added-Settles outside (add_unanswered taken) job ids w h = absurd h

  enqueue-Settles :
      (outside : Outside) (payload : TikTokEventsPayload) (w : World R)
      → AddsSettle outside
      → Settles Always ((enqueue_payload outside payload >> return tt) w)
  unfolding enqueue_payload
  enqueue-Settles outside payload w adds =
      added-Settles outside (outside.add w.adds) _ _ w (adds w.adds)

  update_status-Settles :
      (outside : Outside) (id : String) (s : EventLogStatus) (resp : Option TikTokApiResponse)
      (e : Option String) (w : World R)
      → Settles Always (update_status outside id s resp e w)
  unfolding update_status
  update_status-Settles outside id s resp e w =
      query-Settles Always outside (on_log (update_rows id (updated s resp e w.now))) w tt

  pub insert-Settles :
      (outside : Outside) (params : InsertParams) (w : World R)
      → Ready w.limiter w.now
      → Settles Ready (insert outside params w)
  unfolding insert
  insert-Settles outside params w ready =
      Settles-bind Ready _ _ _
        (query-Settles Ready outside
          (on_log (insert_row (new_row params (outside.uuid w.uuids) w.now))) _ ready)
        (λ _ w'. Settles-return Ready (outside.uuid w.uuids) w')

  pub send_or_enqueue-Settles :
      (setup : Setup) (id : String) (payload : TikTokEventsPayload) (w : World R)
      → AddsSettle setup.outside
      → Ready w.limiter w.now
      → Settles Always (send_or_enqueue setup id payload w)
  unfolding send_or_enqueue
  send_or_enqueue-Settles setup id payload w adds ready =
      Settles-recover Always _ _ _
        (Settles-bind Always _ _ _ (send_events-Settles setup.outside setup.env payload w ready)
          (λ result w' k. update_status-Settles setup.outside id sent (some result) none w'))
        (λ error w' k.
          Settles-bind Always _ _ _
            (update_status-Settles setup.outside id failed none (some error) w')
            (λ _ t k'. enqueue-Settles setup.outside payload t adds))
