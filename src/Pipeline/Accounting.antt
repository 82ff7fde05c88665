-- ===== src/Pipeline/Accounting.antt =====
-- What a run of the pipeline comes to as a whole.
use salesforce_tiktok_crm.Base.{
  ℕ, String, Bool, true, false, ◌≡◌, refl, ap, Option, none, some, Bool-cases, Option-cases, inl,
  inr,
}
use salesforce_tiktok_crm.Types.{
  SalesforceCdcEvent, SalesforceLead, EventValue, TikTokEventsPayload, CanonicalEvent,
}
use salesforce_tiktok_crm.Exec.{return, Result, ok, ◌>>=◌}
use salesforce_tiktok_crm.Exec.Rules.{Run, Run-bind, Run-bind-answer, Run-mono}
use salesforce_tiktok_crm.Redis.{Redis}
use salesforce_tiktok_crm.World.{World}
use salesforce_tiktok_crm.World.Quiet.{
  Quiet, Quiet-refl, RunsQuiet, Quiet-return, Quiet-bind, Quiet-recover, command-Quiet,
}
use salesforce_tiktok_crm.Filter.{evaluate}
use salesforce_tiktok_crm.Filter.Triggers.{Triggers, evaluate_iff}
use salesforce_tiktok_crm.Deduplication.{is_duplicate}
use salesforce_tiktok_crm.EventLog.{InsertParams, insert}
use salesforce_tiktok_crm.EventSet.Resolution.{resolve-Quiet}
use salesforce_tiktok_crm.Pipeline.{
  Setup, event_time, advertiser_of, canonical_event, payload_of, resolve_event_set, check_duplicate,
  deliver, process_passed, process_result, process,
}
use salesforce_tiktok_crm.Pipeline.Steps.{Logged, Untouched}
use salesforce_tiktok_crm.Pipeline.Logging.{insert-LogRun}
use salesforce_tiktok_crm.Pipeline.Delivery.{
  Outcome, Interrupted, before_log, Unsettled, OutcomeRun, OutcomeRun-on,
  send_or_enqueue-HandledRun,
}

-- the event that is built, at a given time
abbrev pub event_at : Setup → SalesforceCdcEvent → SalesforceLead → EventValue → ℕ → CanonicalEvent
event_at setup cdc_event lead event_name now =
    canonical_event setup event_name
      (event_time setup.date_ms cdc_event.header.commit_timestamp now) lead

module _ {R : Redis} (setup : Setup) where
  resolve_event_set-Quiet :
      (b : Bool) (id : Option String) (w₀ w : World R)
      → Quiet w₀ w
      → RunsQuiet w₀ (resolve_event_set setup b id w)
  unfolding resolve_event_set
  resolve_event_set-Quiet false id w₀ w q = Quiet-return none w₀ w q
  resolve_event_set-Quiet true none w₀ w q = Quiet-return none w₀ w q
  resolve_event_set-Quiet true (some id) w₀ w q =
      Quiet-recover _ _ w₀ _
        (Quiet-bind _ _ w₀ _ (resolve-Quiet setup.outside setup.env id w₀ w q)
          (λ set w'. Quiet-return (some set) w₀ w'))
        (λ m w'. Quiet-return none w₀ w')

  check_duplicate-Quiet :
      (id : String) (w₀ w : World R) → Quiet w₀ w → RunsQuiet w₀ (check_duplicate setup id w)
  unfolding check_duplicate
  check_duplicate-Quiet id w₀ w q = command-Quiet (is_duplicate R setup.env id w.now) w₀ w q

  -- an insert logs the event, or is a throw before anything was sent
  insert-logs :
      (params : InsertParams) (payload : TikTokEventsPayload) (w : World R)
      → Run
          (λ _ w'. Untouched w w' × Logged params.event_id w')
          (λ _. Interrupted payload params.event_id w)
          (Unsettled payload params.event_id w)
          (insert setup.outside params w)
  insert-logs params payload w =
      Run-mono _ _ _ _ _ _ _ _ (insert-LogRun setup.outside params w) (λ id w' p. p)
        (λ m w' p. before_log p.0) (λ w' p. absurd p)

  duplicate-OutcomeRun :
      (payload : TikTokEventsPayload) (id : String) (w w' : World R)
      → Untouched w w' × Logged id w'
      → OutcomeRun true payload id w (return tt w')
  unfolding Run
  duplicate-OutcomeRun payload id w w' p = p

  -- The insert, then what is left to do.
  deliver-OutcomeRun :
      (is_dup : Bool) (event : CanonicalEvent) (replay_id : ℕ) (payload : TikTokEventsPayload)
      (w : World R)
      → OutcomeRun is_dup payload event.event_id w (deliver setup is_dup event replay_id payload w)
  unfolding deliver
  deliver-OutcomeRun true event replay_id payload w =
      Run-bind _ _ _ _ _ _ _ (insert-logs _ payload w)
        (λ id w' p. duplicate-OutcomeRun payload event.event_id w w' p)
  deliver-OutcomeRun false event replay_id payload w =
      Run-bind _ _ _ _ _ _ _ (insert-logs _ payload w) (λ id w' p.
        OutcomeRun-on false payload event.event_id w w' _ _ p.0
          (send_or_enqueue-HandledRun setup payload event.event_id w' p.1))

  -- the run of step 3
  abbrev pub resolution : SalesforceLead → World R → Result (Option String) × World R
  resolution lead w =
      resolve_event_set setup setup.has_event_set_manager (advertiser_of lead.campaign) w

  -- What `process` comes to for an event that passed the filter. Where it returns, steps 3 and 5
  -- returned the event set and the answer of the deduplication that decide the outcome.
  abbrev pub Accounted :
      SalesforceLead → CanonicalEvent → World R → Result (Unit {0}) × World R → Type 0
  Accounted lead event w p =
      Run
        (λ _ w'.
          (set : Option String) × (is_dup : Bool) × ((resolution lead w).0 ≡ ok set)
          × ((check_duplicate setup event.event_id (resolution lead w).1).0 ≡ ok is_dup)
          × Outcome is_dup (payload_of setup event set) event.event_id w w')
        (λ _ w'.
          (set : Option String) × Interrupted (payload_of setup event set) event.event_id w w')
        (λ w'. (set : Option String) × Unsettled (payload_of setup event set) event.event_id w w') p

  rest-Accounted :
      (lead : SalesforceLead) (event : CanonicalEvent) (replay_id : ℕ) (set : Option String)
      (w : World R)
      → (resolution lead w).0 ≡ ok set
      → Quiet w (resolution lead w).1
      → Accounted lead event w (
          (check_duplicate setup event.event_id >>= λ is_dup.
          deliver setup is_dup event replay_id (payload_of setup event set))
            (resolution lead w).1)
  rest-Accounted lead event replay_id set w resolved q =
      Run-bind-answer (λ _. Quiet w) _ _ _ _ _ _
        (Run-mono _ _ _ _ _ _ _ _ (check_duplicate-Quiet event.event_id w (resolution lead w).1 q)
          (λ b t p. p) (λ m t p. (set, before_log (p.requests, p.jobs)))
          (λ t p. (set, inl (before_log (p.requests, p.jobs)))))
        (λ is_dup answer p.
          Run-mono _ _ _ _ _ _ _ _
            (OutcomeRun-on is_dup _ event.event_id w _ _ _ (p.requests, p.jobs)
              (deliver-OutcomeRun is_dup event replay_id (payload_of setup event set) _))
            (λ _ t' h. (set, is_dup, resolved, answer, h)) (λ m t' h. (set, h)) (λ t' h. (set, h)))

  built-Accounted :
      (lead : SalesforceLead) (event built : CanonicalEvent) (replay_id : ℕ) (set : Option String)
      (w : World R)
      → built ≡ event
      → (resolution lead w).0 ≡ ok set
      → Quiet w (resolution lead w).1
      → Accounted lead event w (
          (check_duplicate setup built.event_id >>= λ is_dup.
          deliver setup is_dup built replay_id (payload_of setup built set))
            (resolution lead w).1)
  built-Accounted lead event built replay_id set w e resolved q =
      rw e (rest-Accounted lead event replay_id set w resolved q)

  process_passed-Accounted :
      (cdc_event : SalesforceCdcEvent) (lead : SalesforceLead) (event_name : EventValue)
      (w : World R)
      → Accounted lead
          (event_at setup cdc_event lead event_name w.now)
          w
          (process_passed setup cdc_event lead event_name w)
  unfolding process_passed
  process_passed-Accounted cdc_event lead event_name w =
      Run-bind-answer (λ _. Quiet w) _ _ _ _ _ _
        (Run-mono _ _ _ _ _ _ _ _
          (resolve_event_set-Quiet setup.has_event_set_manager (advertiser_of lead.campaign) w w
            (Quiet-refl w))
          (λ b t p. p) (λ m t p. (none, before_log (p.requests, p.jobs)))
          (λ t p. (none, inl (before_log (p.requests, p.jobs)))))
        (λ set resolved q.
          built-Accounted lead (event_at setup cdc_event lead event_name w.now)
            (event_at setup cdc_event lead event_name (resolution lead w).1.now) cdc_event.replay_id
            set w (ap (event_at setup cdc_event lead event_name) q.now) resolved q)

  -- A change of a Lead that triggers no event leaves the world as it was.
  pub process-filtered :
      (cdc_event : SalesforceCdcEvent) (lead : SalesforceLead) (w : World R)
      → ((e : EventValue) → ¬ Triggers setup.lower cdc_event e)
      → process setup cdc_event lead w ≡ (ok tt, w)
  unfolding process process_result
  process-filtered cdc_event lead w none_triggers =
      elim (Bool-cases (evaluate setup.lower cdc_event).should_process) [
        | inr stop ↦ rw stop refl
        | inl go ↦ elim (Option-cases (evaluate setup.lower cdc_event).event_type) [
          | inl nothing ↦ rw (go, nothing) refl
          | inr (e, something) ↦
              absurd (none_triggers e ((evaluate_iff setup.lower cdc_event e).0 (go, something)))
        ]
      ]

  -- A change of a Lead that triggers an event is accounted for. If `process` returns, then step 3
  -- gave an event set and the deduplication an answer. For a duplicate nothing was sent or enqueued,
  -- and the event is in the log. For a new event either `http.post` was called once, with its payload,
  -- nothing was enqueued and its row says sent, or one job with its payload was enqueued, `http.post`
  -- was called at most once and its row says failed. If `process` throws, no job was enqueued,
  -- `http.post` was called at most once, with the payload, and not before the event was in the log.
  -- If it never settles, it has done what it may have done before a throw, or it has enqueued the
  -- payload of a new event as above. (axios-retry may send the request of a call of `http.post` again.)
  pub process-Accounted :
      (cdc_event : SalesforceCdcEvent) (lead : SalesforceLead) (event_name : EventValue)
      (w : World R)
      → Triggers setup.lower cdc_event event_name
      → Accounted lead
          (event_at setup cdc_event lead event_name w.now)
          w
          (process setup cdc_event lead w)
  unfolding process process_result
  process-Accounted cdc_event lead event_name w triggers =
      let (passes, e) = (evaluate_iff setup.lower cdc_event event_name).1 triggers in
      rw (passes, e) (process_passed-Accounted cdc_event lead event_name w)
