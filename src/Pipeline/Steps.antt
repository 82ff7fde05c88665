-- ===== src/Pipeline/Steps.antt =====
-- The steps of the pipeline that touch the event log, TikTok and the retry queue: what each comes
-- to, for every way in which it can end.
use salesforce_tiktok_crm.Base.{
  ℕ, String, ◌≡◌, refl, ap, Option, none, some, ◌∷◌, Bool-cases, inl, inr, nat_eq,
}
use salesforce_tiktok_crm.Config.{Env}
use salesforce_tiktok_crm.Types.{TikTokEventsPayload, TikTokApiResponse, EventLogStatus}
use salesforce_tiktok_crm.Exec.{Result, go_on, ◌>>=◌}
use salesforce_tiktok_crm.Exec.Rules.{Run, Run-bind, Run-mono}
use salesforce_tiktok_crm.Redis.{Redis}
use salesforce_tiktok_crm.World.{LogRow, Outside, World, HttpOutcome, response, failure}
use salesforce_tiktok_crm.EventLog.{find_row}
use salesforce_tiktok_crm.Clients.RateLimiter.{RateLimiter, acquire_from}
use salesforce_tiktok_crm.Clients.Send.{
  acquire, acquired, static_token, token_or_throw, post, posted, check_code, send_events,
}

abbrev pub row_status : Option LogRow → Option EventLogStatus
row_status none = none
row_status (some r) = some r.status

module _ {R : Redis} where
  -- the status of an event in the log
  abbrev pub status_at : String → World R → Option EventLogStatus
  status_at id w = row_status (find_row id w.tables.event_log)

  abbrev pub Logged : String → World R → Type 0
  Logged id w = (s : EventLogStatus) × (status_at id w ≡ some s)

  -- `http.post` was called at most once, with this payload.
  pub data Contacted (payload : TikTokEventsPayload) (w w' : World R) : Type 0 where
    not_sent : w'.requests ≡ w.requests → Contacted payload w w'
    sent_once :
        (token : String) (resends : ℕ)
        → w'.requests
          ≡ record { access_token = token; payload = payload; resends = resends } ∷ w.requests
        → Contacted payload w w'

  abbrev pub SameLog : World R → World R → Type 0
  SameLog w w' = (w'.jobs ≡ w.jobs) × (w'.tables.event_log ≡ w.tables.event_log)

  abbrev pub Untouched : World R → World R → Type 0
  Untouched w w' = (w'.requests ≡ w.requests) × (w'.jobs ≡ w.jobs)

  acquired-Run :
      (w : World R) (o : Option (RateLimiter × ℕ))
      → Run
          (λ _ w'. Untouched w w' × SameLog w w')
          (λ _ _. ⊥)
          (λ w'. Untouched w w' × SameLog w w')
          (acquired o w)
  unfolding Run
  acquired-Run w none = ((refl, refl), (refl, refl))
  acquired-Run w (some (l, later)) = ((refl, refl), (refl, refl))

  -- What a call of `sendEvents` comes to.
  abbrev pub SendRun : TikTokEventsPayload → World R → Result TikTokApiResponse × World R → Type 0
  SendRun payload w p =
      Run
        (λ _ w'.
          ((token : String) × (resends : ℕ) × (w'.requests
              ≡ record { access_token = token; payload = payload; resends = resends } ∷ w.requests))
          × SameLog w w')
        (λ _ w'. Contacted payload w w' × SameLog w w') (λ w'. Untouched w w' × SameLog w w') p

  check_code-SendRun :
      (payload : TikTokEventsPayload) (result : TikTokApiResponse) (token : String) (resends : ℕ)
      (w w' : World R)
      → w'.requests
        ≡ record { access_token = token; payload = payload; resends = resends } ∷ w.requests
      → SameLog w w'
      → SendRun payload w (check_code result w')
  unfolding check_code Run
  check_code-SendRun payload result token resends w w' sent same =
      elim (Bool-cases (nat_eq result.code 0)) [
        | inl zero ↦ rw zero ((token, resends, sent), same)
        | inr other ↦ rw other (sent_once token resends sent, same)
      ]

  posted-SendRun :
      (payload : TikTokEventsPayload) (o : HttpOutcome) (token : String) (resends : ℕ)
      (w w' : World R)
      → w'.requests
        ≡ record { access_token = token; payload = payload; resends = resends } ∷ w.requests
      → SameLog w w'
      → SendRun payload w (go_on (posted o w').0 (posted o w').1 check_code)
  unfolding Run
  posted-SendRun payload (response result) token resends w w' sent same =
      check_code-SendRun payload result token resends w w' sent same
  posted-SendRun payload (failure m) token resends w w' sent same =
      (sent_once token resends sent, same)

  post-SendRun :
      (outside : Outside) (payload : TikTokEventsPayload) (token : String) (w w' : World R)
      → Untouched w w'
      → SameLog w w'
      → SendRun payload w
          (go_on (post outside token payload w').0 (post outside token payload w').1 check_code)
  unfolding post
  post-SendRun outside payload token w w' untouched same =
      posted-SendRun payload (outside.post w'.posts) token (outside.resends w'.posts) w _
        (ap
          (λ l.
            record { access_token = token; payload = payload; resends = outside.resends w'.posts }
            ∷ l)
          untouched.0)
        same

  token-SendRun :
      (outside : Outside) (payload : TikTokEventsPayload) (o : Option String) (w w' : World R)
      → Untouched w w'
      → SameLog w w'
      → SendRun payload w (
          go_on
            (token_or_throw o w').0
            (token_or_throw o w').1
            (λ token. post outside token payload >>= check_code))
  unfolding Run
  token-SendRun outside payload none w w' untouched same = (not_sent untouched.0, same)
  token-SendRun outside payload (some String.[]) w w' untouched same = (not_sent untouched.0, same)
  token-SendRun outside payload (some (String.◌∷◌ c s)) w w' untouched same =
      post-SendRun outside payload (String.◌∷◌ c s) w w' untouched same

  pub send_events-SendRun :
      (outside : Outside) (env : Env) (payload : TikTokEventsPayload) (w : World R)
      → SendRun payload w (send_events outside (static_token env) payload w)
  unfolding send_events static_token acquire
  send_events-SendRun outside env payload w =
      Run-bind (λ _ w'. Untouched w w' × SameLog w w') _ _ _ (acquire w).0 _ (acquire w).1
        (Run-mono _ _ _ _ _ _ (acquire w).0 (acquire w).1
          (acquired-Run w (acquire_from 2 w.now w.limiter)) (λ a w' p. p) (λ m w' p. absurd p)
          (λ w' p. p))
        (λ _ w' p. token-SendRun outside payload env.tiktok_access_token w w' p.0 p.1)
