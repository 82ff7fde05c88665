-- ===== src/Pipeline/Total.antt =====
-- `process` returns or throws.
use salesforce_tiktok_crm.Base.{
  ℕ, String, Bool, true, false, ◌≢◌, refl, Option, none, some, not, Bool-cases, Option-cases, inl,
  inr,
}
use salesforce_tiktok_crm.Types.{
  SalesforceCdcEvent, SalesforceLead, EventValue, TikTokEventsPayload, CanonicalEvent,
}
use salesforce_tiktok_crm.Config.{Env}
use salesforce_tiktok_crm.Exec.{Result, ok, thrown, hangs, return, go_on, recover_from}
use salesforce_tiktok_crm.Exec.Rules.{Run, Run-bind, Run-mono}
use salesforce_tiktok_crm.Redis.{Redis}
use salesforce_tiktok_crm.World.{World}
use salesforce_tiktok_crm.World.Settled.{
  Responsive, Settles, Settles-return, Settles-bind, Settles-recover, command-Settles,
}
use salesforce_tiktok_crm.Deduplication.{is_duplicate, dedup_key}
use salesforce_tiktok_crm.EventSet.Settling.{resolve-Settles}
use salesforce_tiktok_crm.Filter.{evaluate}
use salesforce_tiktok_crm.Pipeline.{
  Setup, resolve_event_set, check_duplicate, deliver, process_passed, process_result, process,
}
use salesforce_tiktok_crm.Pipeline.Settling.{
  Ready, Always, AddsSettle, insert-Settles, send_or_enqueue-Settles,
}

module _ {R : Redis} (answers : Responsive R) (setup : Setup)
    (adds : AddsSettle setup.outside) where
  resolve_event_set-Settles :
      (b : Bool) (id : Option String) (w : World R)
      → Ready w.limiter w.now
      → Settles Ready (resolve_event_set setup b id w)
  unfolding resolve_event_set
  resolve_event_set-Settles false id w ready = Settles-return Ready none w ready
  resolve_event_set-Settles true none w ready = Settles-return Ready none w ready
  resolve_event_set-Settles true (some id) w ready =
      Settles-recover Ready _ _ _
        (Settles-bind Ready _ _ _ (resolve-Settles answers setup.outside setup.env Ready id w ready)
          (λ set w'. Settles-return Ready (some set) w'))
        (λ m w'. Settles-return Ready none w')

  is_duplicate-settles :
      (env : Env) (id : String) (now : ℕ) (c : R.Conn) → (is_duplicate R env id now c).0 ≢ hangs
  unfolding is_duplicate
  is_duplicate-settles env id now c =
      by_answer (R.set_nx (dedup_key id) "1" env.redis_dedup_ttl_seconds now c).0 _
        (answers.set_nx (dedup_key id) "1" env.redis_dedup_ttl_seconds now c)
    where
      by_answer :
          (r : Result Bool) (s : R.Conn)
          → r ≢ hangs
          → (recover_from
              (go_on r s (λ set. return (not set))).0
              (go_on r s (λ set. return (not set))).1
              (λ _. return false)).0
            ≢ hangs
      by_answer (ok b) s h e = cc
      by_answer (thrown m) s h e = cc
      by_answer hangs s h e = h refl

  check_duplicate-Settles :
      (id : String) (w : World R)
      → Ready w.limiter w.now
      → Settles Ready (check_duplicate setup id w)
  unfolding check_duplicate
  check_duplicate-Settles id w ready =
      command-Settles Ready (is_duplicate R setup.env id w.now) w
        (is_duplicate-settles setup.env id w.now w.redis) ready

  deliver-Settles :
      (is_dup : Bool) (event : CanonicalEvent) (replay_id : ℕ) (payload : TikTokEventsPayload)
      (w : World R)
      → Ready w.limiter w.now
      → Settles Always (deliver setup is_dup event replay_id payload w)
  unfolding deliver
  deliver-Settles true event replay_id payload w ready =
      Run-bind (λ _ w'. Ready w'.limiter w'.now) _ _ _ _ _ _
        (Run-mono _ _ _ _ _ _ _ _ (insert-Settles setup.outside _ w ready) (λ id w' k. k)
          (λ m w' k. tt) (λ w' k. k))
        (λ id w' k. Settles-return Always tt w' tt)
  deliver-Settles false event replay_id payload w ready =
      Run-bind (λ _ w'. Ready w'.limiter w'.now) _ _ _ _ _ _
        (Run-mono _ _ _ _ _ _ _ _ (insert-Settles setup.outside _ w ready) (λ id w' k. k)
          (λ m w' k. tt) (λ w' k. k))
        (λ id w' k. send_or_enqueue-Settles setup event.event_id payload w' adds k)

  process_passed-Settles :
      (cdc_event : SalesforceCdcEvent) (lead : SalesforceLead) (event_name : EventValue)
      (w : World R)
      → Ready w.limiter w.now
      → Settles Always (process_passed setup cdc_event lead event_name w)
  unfolding process_passed
  process_passed-Settles cdc_event lead event_name w ready =
      Run-bind (λ _ w'. Ready w'.limiter w'.now) _ _ _ _ _ _
        (Run-mono _ _ _ _ _ _ _ _ (resolve_event_set-Settles _ _ w ready) (λ set w' k. k)
          (λ m w' k. tt) (λ w' k. k))
        (λ set w' k.
          Run-bind (λ _ t. Ready t.limiter t.now) _ _ _ _ _ _
            (Run-mono _ _ _ _ _ _ _ _ (check_duplicate-Settles _ w' k) (λ d t k'. k') (λ m t k'. tt)
              (λ t k'. k'))
            (λ is_dup t k'. deliver-Settles is_dup _ cdc_event.replay_id _ t k'))

  process-Settles :
      (cdc_event : SalesforceCdcEvent) (lead : SalesforceLead) (w : World R)
      → Ready w.limiter w.now
      → Settles Always (process setup cdc_event lead w)
  unfolding process process_result
  process-Settles cdc_event lead w ready =
      elim (Bool-cases (evaluate setup.lower cdc_event).should_process) [
        | inr stop ↦ rw stop (Settles-return Always tt w tt)
        | inl go ↦ elim (Option-cases (evaluate setup.lower cdc_event).event_type) [
          | inl nothing ↦ rw (go, nothing) (Settles-return Always tt w tt)
          | inr (e, something) ↦
              rw (go, something) (process_passed-Settles cdc_event lead e w ready)
        ]
      ]

  settled : (r : Result (Unit {0})) (w : World R) → Settles Always (r, w) → r ≢ hangs
  unfolding Run
  settled (ok a) w s e = cc
  settled (thrown m) w s e = cc
  settled hangs w s e = s

  -- Where the commands of Redis and the calls of BullMQ's `add` return or throw, and the rate limiter grants at least one token a
  -- second and was not refilled in the future, `process` returns or throws, whatever the event and
  -- whatever Postgres, TikTok and the queue answer.
  pub process_total :
      (cdc_event : SalesforceCdcEvent) (lead : SalesforceLead) (w : World R)
      → Ready w.limiter w.now
      → (process setup cdc_event lead w).0 ≢ hangs
  process_total cdc_event lead w ready = settled _ _ (process-Settles cdc_event lead w ready)
