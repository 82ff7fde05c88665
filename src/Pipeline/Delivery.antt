-- ===== src/Pipeline/Delivery.antt =====
-- The last step of the pipeline: a payload that is logged is sent or handed to the retry queue.
use salesforce_tiktok_crm.Base.{
  ◌⊎◌, inl, inr, ℕ, Bool, true, false, String, ◌≡◌, refl, ◌∙◌, ap, none, some, ◌∷◌,
}
use salesforce_tiktok_crm.Types.{TikTokEventsPayload, sent, failed}
use salesforce_tiktok_crm.Exec.{Result, return, ◌>>◌}
use salesforce_tiktok_crm.Exec.Rules.{Run, Run-bind, Run-recover, Run-mono}
use salesforce_tiktok_crm.Redis.{Redis}
use salesforce_tiktok_crm.World.{
  Outside, World, Job, AddOutcome, job_added, add_failed, add_unanswered,
}
use salesforce_tiktok_crm.EventLog.{update_status}
use salesforce_tiktok_crm.Queue.{enqueue_payload, added}
use salesforce_tiktok_crm.Pipeline.{Setup, send_or_enqueue}
use salesforce_tiktok_crm.Pipeline.Steps.{
  status_at, Logged, Contacted, not_sent, sent_once, SameLog, Untouched, send_events-SendRun,
}
use salesforce_tiktok_crm.Pipeline.Logging.{update_status-LogRun}

module _ {R : Redis} where
  -- A new event is dealt with when `process` returns: it was sent, or its payload was enqueued.
  pub data Handled (payload : TikTokEventsPayload) (id : String) (w w' : World R) : Type 0 where
    delivered :
        (token : String) (resends : ℕ)
        → w'.requests
          ≡ record { access_token = token; payload = payload; resends = resends } ∷ w.requests
        → w'.jobs ≡ w.jobs
        → status_at id w' ≡ some sent
        → Handled payload id w w'
    queued :
        (job : Job)
        → job.job_data.payload ≡ payload
        → w'.jobs ≡ job ∷ w.jobs
        → Contacted payload w w'
        → status_at id w' ≡ some failed
        → Handled payload id w w'

  -- A duplicate is in the log and was not sent, a new event is dealt with.
  abbrev pub Outcome : Bool → TikTokEventsPayload → String → World R → World R → Type 0
  Outcome true payload id w w' = Untouched w w' × Logged id w'
  Outcome false payload id w w' = Handled payload id w w'

  -- There is no job, at most one call of `http.post`, and none before the event is in the log.
  pub data Interrupted (payload : TikTokEventsPayload) (id : String) (w w' : World R) : Type 0 where
    before_log : Untouched w w' → Interrupted payload id w w'
    after_log :
        Contacted payload w w' → w'.jobs ≡ w.jobs → Logged id w' → Interrupted payload id w w'

  -- A call that never settles did no more than one that throws, or had enqueued the payload.
  abbrev pub Unsettled : TikTokEventsPayload → String → World R → World R → Type 0
  Unsettled payload id w w' = Interrupted payload id w w' ⊎ Handled payload id w w'

  abbrev pub HandledRun :
      TikTokEventsPayload → String → World R → Result (Unit {0}) × World R → Type 0
  HandledRun payload id w p =
      Run (λ _. Handled payload id w) (λ _. Interrupted payload id w) (Unsettled payload id w) p

  Contacted-on :
      (payload : TikTokEventsPayload) (w w₁ w₂ : World R)
      → Contacted payload w w₁
      → w₂.requests ≡ w₁.requests
      → Contacted payload w w₂
  Contacted-on payload w w₁ w₂ (not_sent e) same = not_sent (same ∙ e)
  Contacted-on payload w w₁ w₂ (sent_once token resends e) same = sent_once token resends (same ∙ e)

  Contacted-from :
      (payload : TikTokEventsPayload) (w₀ w w' : World R)
      → w.requests ≡ w₀.requests
      → Contacted payload w w'
      → Contacted payload w₀ w'
  Contacted-from payload w₀ w w' r (not_sent e) = not_sent (e ∙ r)
  Contacted-from payload w₀ w w' r (sent_once token resends e) =
      sent_once token resends
        (e ∙ ap (λ l. record { access_token = token; payload = payload; resends = resends } ∷ l) r)

  Logged-on :
      (id : String) (w w' : World R)
      → w'.tables.event_log ≡ w.tables.event_log
      → Logged id w
      → Logged id w'
  Logged-on id w w' same l = rw same l

  -- what the `catch` block starts from
  abbrev Caught : TikTokEventsPayload → String → World R → World R → Type 0
  Caught payload id w w' = Contacted payload w w' × (w'.jobs ≡ w.jobs) × Logged id w'

  added-HandledRun :
      (outside : Outside) (payload : TikTokEventsPayload) (id : String) (o : AddOutcome) (job : Job)
      (ids : String) (w w' : World R)
      → job.job_data.payload ≡ payload
      → Caught payload id w w'
      → status_at id w' ≡ some failed
      → HandledRun payload id w ((added outside o job >> return ids >> return tt) w')
  unfolding Run
  added-HandledRun outside payload id job_added job ids w w' same (contacted, jobs, logged)
        failed_row =
      queued job same (ap (λ l. job ∷ l) jobs) (Contacted-on payload w w' _ contacted refl)
        failed_row
  added-HandledRun outside payload id (add_failed m) job ids w w' same (contacted, jobs, logged)
        failed_row =
      after_log (Contacted-on payload w w' _ contacted refl) jobs logged
  added-HandledRun outside payload id (add_unanswered true) job ids w w' same
        (contacted, jobs, logged) failed_row =
      inr (
        queued job same (ap (λ l. job ∷ l) jobs) (Contacted-on payload w w' _ contacted refl)
          failed_row)
  added-HandledRun outside payload id (add_unanswered false) job ids w w' same
        (contacted, jobs, logged) failed_row =
      inl (after_log (Contacted-on payload w w' _ contacted refl) jobs logged)

  enqueue-HandledRun :
      (outside : Outside) (payload : TikTokEventsPayload) (id : String) (w w' : World R)
      → Caught payload id w w'
      → status_at id w' ≡ some failed
      → HandledRun payload id w ((enqueue_payload outside payload >> return tt) w')
  unfolding enqueue_payload
  enqueue-HandledRun outside payload id w w' caught failed_row =
      added-HandledRun outside payload id (outside.add w'.adds) _ _ w w' refl caught failed_row

  handler-HandledRun :
      (outside : Outside) (payload : TikTokEventsPayload) (id error : String) (w w' : World R)
      → Caught payload id w w'
      → HandledRun payload id w (
          (update_status outside id failed none (some error)
              >> (enqueue_payload outside payload >> return tt))
            w')
  handler-HandledRun outside payload id error w w' (contacted, jobs, logged) =
      Run-bind (λ _ t. Caught payload id w t × (status_at id t ≡ some failed)) _ _ _ _ _ _
        (Run-mono _ _ _ _ _ _ _ _
          (update_status-LogRun outside id failed none (some error) w' logged)
          (λ _ t p.
            ((Contacted-on payload w w' t contacted p.0.0, p.0.1 ∙ jobs, (failed, p.1)), p.1))
          (λ m t p.
            after_log (Contacted-on payload w w' t contacted p.0.0) (p.0.1 ∙ jobs) (p.1 id logged))
          (λ t p. absurd p))
        (λ _ t p. enqueue-HandledRun outside payload id w t p.0 p.1)

  -- A logged event's payload is sent and recorded as sent, or handed to the retry queue and
  -- recorded as failed; or there is a throw.
  pub send_or_enqueue-HandledRun :
      (setup : Setup) (payload : TikTokEventsPayload) (id : String) (w : World R)
      → Logged id w
      → HandledRun payload id w (send_or_enqueue setup id payload w)
  unfolding send_or_enqueue
  send_or_enqueue-HandledRun setup payload id w logged =
      Run-recover _ _ (λ _. Caught payload id w) _ _ _ _
        (Run-bind
          (λ _ w'.
            ((token : String) × (resends : ℕ) × (w'.requests
                ≡ record { access_token = token; payload = payload; resends = resends }
                  ∷ w.requests))
            × SameLog w w')
          _ _ _ _ _ _
          (Run-mono _ _ _ _ _ _ _ _ (send_events-SendRun setup.outside setup.env payload w)
            (λ _ w' p. p) (λ m w' p. (p.0, p.1.0, Logged-on id w w' p.1.1 logged))
            (λ w' p. inl (before_log p.0)))
          (λ result w' p.
            Run-mono _ _ _ _ _ _ _ _
              (update_status-LogRun setup.outside id sent (some result) none w'
                (Logged-on id w w' p.1.1 logged))
              (λ _ t q. delivered p.0.0 p.0.1 (q.0.0 ∙ p.0.2) (q.0.1 ∙ p.1.0) q.1)
              (λ m t q. (
                sent_once p.0.0 p.0.1 (q.0.0 ∙ p.0.2),
                q.0.1 ∙ p.1.0,
                q.1 id (Logged-on id w w' p.1.1 logged),
              ))
              (λ t q. absurd q)))
        (λ error w' caught. handler-HandledRun setup.outside payload id error w w' caught)

  Handled-on :
      (payload : TikTokEventsPayload) (id : String) (w₀ w w' : World R)
      → Untouched w₀ w
      → Handled payload id w w'
      → Handled payload id w₀ w'
  Handled-on payload id w₀ w w' (r, j) (delivered token resends sent_request jobs row) =
      delivered token resends
        (sent_request
          ∙ ap (λ l. record { access_token = token; payload = payload; resends = resends } ∷ l) r)
        (jobs ∙ j) row
  Handled-on payload id w₀ w w' (r, j) (queued job same jobs contacted row) =
      queued job same (jobs ∙ ap (λ l. job ∷ l) j) (Contacted-from payload w₀ w w' r contacted) row

  Outcome-on :
      (is_dup : Bool) (payload : TikTokEventsPayload) (id : String) (w₀ w w' : World R)
      → Untouched w₀ w
      → Outcome is_dup payload id w w'
      → Outcome is_dup payload id w₀ w'
  Outcome-on true payload id w₀ w w' (r, j) ((r', j'), logged) = ((r' ∙ r, j' ∙ j), logged)
  Outcome-on false payload id w₀ w w' u h = Handled-on payload id w₀ w w' u h

  Interrupted-on :
      (payload : TikTokEventsPayload) (id : String) (w₀ w w' : World R)
      → Untouched w₀ w
      → Interrupted payload id w w'
      → Interrupted payload id w₀ w'
  Interrupted-on payload id w₀ w w' (r, j) (before_log (r', j')) = before_log (r' ∙ r, j' ∙ j)
  Interrupted-on payload id w₀ w w' (r, j) (after_log contacted jobs logged) =
      after_log (Contacted-from payload w₀ w w' r contacted) (jobs ∙ j) logged

  Unsettled-on :
      (payload : TikTokEventsPayload) (id : String) (w₀ w w' : World R)
      → Untouched w₀ w
      → Unsettled payload id w w'
      → Unsettled payload id w₀ w'
  Unsettled-on payload id w₀ w w' u (inl i) = inl (Interrupted-on payload id w₀ w w' u i)
  Unsettled-on payload id w₀ w w' u (inr h) = inr (Handled-on payload id w₀ w w' u h)

  abbrev pub OutcomeRun :
      Bool → TikTokEventsPayload → String → World R → Result (Unit {0}) × World R → Type 0
  OutcomeRun is_dup payload id w p =
      Run (λ _. Outcome is_dup payload id w) (λ _. Interrupted payload id w)
        (Unsettled payload id w) p

  -- Steps before the run that sent and enqueued nothing count for nothing.
  pub OutcomeRun-on :
      (is_dup : Bool) (payload : TikTokEventsPayload) (id : String) (w₀ w w' : World R)
      (r : Result (Unit {0}))
      → Untouched w₀ w
      → OutcomeRun is_dup payload id w (r, w')
      → OutcomeRun is_dup payload id w₀ (r, w')
  OutcomeRun-on is_dup payload id w₀ w w' r u h =
      Run-mono _ _ _ _ _ _ r w' h (λ _ t. Outcome-on is_dup payload id w₀ w t u)
        (λ m t. Interrupted-on payload id w₀ w t u) (λ t. Unsettled-on payload id w₀ w t u)
