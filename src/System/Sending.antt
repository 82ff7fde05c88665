-- ===== src/System/Sending.antt =====
-- Sending and enqueueing a payload keep what one more request, or one more job, with that payload
-- keeps.
use salesforce_tiktok_crm.Base.{
  true, false, ℕ, String, Option, none, some, List, ◌∷◌, Bool-cases, inl, inr, nat_eq,
}
use salesforce_tiktok_crm.Config.{Env}
use salesforce_tiktok_crm.Types.{TikTokEventsPayload, TikTokApiResponse, EventLogStatus}
use salesforce_tiktok_crm.Exec.{Exec, ok, thrown, hangs}
use salesforce_tiktok_crm.Redis.{Redis}
use salesforce_tiktok_crm.World.{
  Tables, Outside, World, Request, Job, AddOutcome, job_added, add_failed, add_unanswered,
  HttpOutcome, response, failure,
}
use salesforce_tiktok_crm.World.Keeping.{History, At, Keeps, Keeps-run, Keeps-bind, query-Keeps}
use salesforce_tiktok_crm.EventLog.{update_rows, updated, on_log, update_status}
use salesforce_tiktok_crm.Clients.RateLimiter.{RateLimiter, acquire_from}
use salesforce_tiktok_crm.Clients.Send.{
  acquire, acquired, static_token, token_or_throw, post, posted, check_code, send_events,
}
use salesforce_tiktok_crm.Queue.{added, add_job, new_job, join_colon, payload_ids, enqueue_payload}
use salesforce_tiktok_crm.System.Stable.{Stable}

module _ {R : Redis} (J : History) where
  acquired-Keeps : (o : Option (RateLimiter × ℕ)) (w : World R) → At J w → Keeps J (acquired o w)
  acquired-Keeps none w i = Keeps-run J hangs w i
  acquired-Keeps (some (l, later)) w i = Keeps-run J (ok tt) _ i

  token_or_throw-Keeps : (o : Option String) (w : World R) → At J w → Keeps J (token_or_throw o w)
  token_or_throw-Keeps none w i = Keeps-run J (thrown _) w i
  token_or_throw-Keeps (some String.[]) w i = Keeps-run J (thrown _) w i
  token_or_throw-Keeps (some (String.◌∷◌ c s)) w i = Keeps-run J (ok _) w i

  pub static_token-Keeps : (env : Env) (w : World R) → At J w → Keeps J (static_token env w)
  unfolding static_token
  static_token-Keeps env w i = token_or_throw-Keeps env.tiktok_access_token w i

  posted-Keeps : (o : HttpOutcome) (w : World R) → At J w → Keeps J (posted o w)
  posted-Keeps (response r) w i = Keeps-run J (ok r) w i
  posted-Keeps (failure m) w i = Keeps-run J (thrown m) w i

  check_code-Keeps : (r : TikTokApiResponse) (w : World R) → At J w → Keeps J (check_code r w)
  unfolding check_code
  check_code-Keeps r w i = elim (Bool-cases (nat_eq r.code 0)) [
    | inl e ↦ rw e (Keeps-run J (ok r) w i)
    | inr e ↦ rw e (Keeps-run J (thrown _) w i)
  ]

  added-Keeps :
      (outside : Outside) (o : AddOutcome) (job : Job) (w : World R)
      → At J w
      → J w.tables w.requests (job ∷ w.jobs)
      → Keeps J (added outside o job w)
  added-Keeps outside job_added job w i more = Keeps-run J (ok tt) _ more
  added-Keeps outside (add_failed m) job w i more = Keeps-run J (thrown m) _ i
  added-Keeps outside (add_unanswered true) job w i more = Keeps-run J hangs _ more
  added-Keeps outside (add_unanswered false) job w i more = Keeps-run J hangs _ i

-- One more request with this payload keeps it.
abbrev pub MayPost : History → TikTokEventsPayload → Type 0
MayPost J payload =
    (token : String) (resends : ℕ) (t : Tables) (rs : List Request) (js : List Job)
    → J t rs js
    → J t (record { access_token = token; payload = payload; resends = resends } ∷ rs) js

-- One more job with this payload keeps it.
abbrev pub MayEnqueue : History → TikTokEventsPayload → Type 0
MayEnqueue J payload =
    (now : ℕ) (t : Tables) (rs : List Request) (js : List Job)
    → J t rs js
    → J t rs (new_job payload now ∷ js)

module _ {R : Redis} (J : History) (outside : Outside) (payload : TikTokEventsPayload) where
  post-Keeps :
      MayPost J payload
      → (token : String) (w : World R) → At J w
      → Keeps J (post outside token payload w)
  unfolding post
  post-Keeps may token w i =
      posted-Keeps J (outside.post w.posts) _
        (may token (outside.resends w.posts) w.tables w.requests w.jobs i)

  pub send_events-Keeps :
      MayPost J payload
      → (resolve_token : Exec (World R) String)
      → ((w : World R) → At J w → Keeps J (resolve_token w))
      → (w : World R) → At J w
      → Keeps J (send_events outside resolve_token payload w)
  unfolding send_events acquire
  send_events-Keeps may resolve_token resolves w i =
      Keeps-bind J _ _ _ (acquired-Keeps J (acquire_from 2 w.now w.limiter) w i) (λ _ v j.
        Keeps-bind J _ _ _ (resolves v j)
          (λ token v' j'. Keeps-bind J _ _ _ (post-Keeps may token v' j') (check_code-Keeps J)))

  pub enqueue_payload-Keeps :
      MayEnqueue J payload → (w : World R) → At J w → Keeps J (enqueue_payload outside payload w)
  unfolding enqueue_payload add_job
  enqueue_payload-Keeps may w i =
      Keeps-bind J _ _ _
        (added-Keeps J outside (outside.add w.adds) (new_job payload w.now) w i
          (may w.now w.tables w.requests w.jobs i))
        (λ _ v j. Keeps-run J (ok (join_colon (payload_ids payload))) v j)

module _ {R : Redis} (J : History) (stable : Stable J) (outside : Outside) where
  pub update_status-Keeps :
      (id : String) (s : EventLogStatus) (answer : Option TikTokApiResponse) (error : Option String)
      (w : World R)
      → At J w
      → Keeps J (update_status outside id s answer error w)
  unfolding update_status
  update_status-Keeps id s answer error w i =
      query-Keeps J outside (on_log (update_rows id (updated s answer error w.now))) w i
        (stable.update id s answer error w.now w.tables w.requests w.jobs i)
