-- ===== src/EventSet/Routes/Answering.antt =====
-- Every handler answers.
use salesforce_tiktok_crm.Base.{
  ℕ, String, ◌≡◌, refl, Option, none, some, List, [], ◌∷◌, Bool-cases, inl, inr, ◌⊎◌,
}
use salesforce_tiktok_crm.Text.{contains}
use salesforce_tiktok_crm.Config.{Env, AppCredentials}
use salesforce_tiktok_crm.Exec.{Result, Exec, recover, ◌>>=◌}
use salesforce_tiktok_crm.Exec.Rules.{Run, Run-bind, Run-recover, Run-mono}
use salesforce_tiktok_crm.Redis.{Redis, RedisLaws}
use salesforce_tiktok_crm.Types.{FieldValue}
use salesforce_tiktok_crm.Types.EventSets.{
  ProvisionResult, selected_existing, created_new, multiple_found, error,
}
use salesforce_tiktok_crm.Http.{HttpResponse, status_code}
use salesforce_tiktok_crm.World.{Outside, World}
use salesforce_tiktok_crm.World.Running.{return-Run}
use salesforce_tiktok_crm.World.Settled.{AllResponsive}
use salesforce_tiktok_crm.Auth.TokenStore.{TokenCodec}
use salesforce_tiktok_crm.Auth.OAuthClient.{get_valid_token}
use salesforce_tiktok_crm.Auth.OAuthClient.Validity.{get_valid_token-Valid}
use salesforce_tiktok_crm.EventSet.Settling.{resolve-Settles}
use salesforce_tiktok_crm.EventSet.Manager.{select}
use salesforce_tiktok_crm.EventSet.Manager.Steps.{list-Run, create-Run}
use salesforce_tiktok_crm.EventSet.Manager.Provisioning.{provision-Run}
use salesforce_tiktok_crm.EventSet.Manager.Selecting.{select-Selected}
use salesforce_tiktok_crm.EventSet.Routes.{
  provision_answer, provision_failure, select_failure, valid_name, valid_id, provision_route,
  list_route, create_named, create_route, select_valid, select_route, active_route,
}

abbrev pub OneOf : List ℕ → ℕ → Type 0
OneOf [] n = ⊥
OneOf (m ∷ ms) n = (n ≡ m) ⊎ OneOf ms n

provision_answer-status :
    (id : String) (r : ProvisionResult)
    → OneOf (200 ∷ 201 ∷ 401 ∷ 500 ∷ []) (status_code (provision_answer id r))
unfolding provision_answer
provision_answer-status id (created_new s) = inr (inl refl)
provision_answer-status id (selected_existing s) = inl refl
provision_answer-status id (multiple_found ss) = inl refl
provision_answer-status id (error m) = inr (inr (inr (inl refl)))

provision_failure-status :
    (id m : String) → OneOf (200 ∷ 201 ∷ 401 ∷ 500 ∷ []) (status_code (provision_failure id m))
unfolding provision_failure
provision_failure-status id m = elim (Bool-cases (contains "OAuth authorization required" m)) [
  | inl e ↦ rw e (inr (inr (inl refl)))
  | inr e ↦ rw e (inr (inr (inr (inl refl))))
]

select_failure-status :
    (m : String) → OneOf (200 ∷ 400 ∷ 404 ∷ 500 ∷ []) (status_code (select_failure m))
unfolding select_failure
select_failure-status m = elim (Bool-cases (contains "not found" m)) [
  | inl e ↦ rw e (inr (inr (inl refl)))
  | inr e ↦ rw e (inr (inr (inr (inl refl))))
]

-- Returns an answer with one of these statuses.
abbrev pub Responds : {R : Redis} → List ℕ → Result HttpResponse × World R → Type 0
Responds statuses p = Run (λ a _. OneOf statuses (status_code a)) (λ _ _. ⊥) (λ _. ⊥) p

-- returns or throws
abbrev pub Settled : {R : Redis} {A : Type 0} → Result A × World R → Type 0
Settled p = Run (λ _ _. Unit {0}) (λ _ _. Unit {0}) (λ _. ⊥) p

module _ {R : Redis} (laws : RedisLaws R) (prompt : AllResponsive R) (codec : TokenCodec)
    (outside : Outside) (app : AppCredentials) (env : Env) (day : ℕ → String) where
  token-Settled : (id : String) (w : World R) → Settled (get_valid_token codec outside app id w)
  token-Settled id w =
      Run-mono _ _ _ _ _ _ _ _ (get_valid_token-Valid prompt codec outside app laws id w)
        (λ a v _. tt) (λ m v _. tt) (λ v h. h)

  select-Settled :
      (id set token : String) (w : World R) → Settled (select outside env day id set token w)
  select-Settled id set token w =
      Run-mono _ _ _ _ _ _ _ _ (select-Selected prompt.responsive outside env day id set token w)
        (λ a v _. tt) (λ m v _. tt) (λ v h. h)

  -- the token first, and an answer for every error
  with_token :
      (statuses : List ℕ) (id : String) (rest : String → Exec (World R) HttpResponse)
      (handler : String → Exec (World R) HttpResponse) (w : World R)
      → ((token : String) (v : World R)
          → Run (λ a _. OneOf statuses (status_code a)) (λ _ _. Unit {0}) (λ _. ⊥) (rest token v))
      → ((m : String) (v : World R) → Responds statuses (handler m v))
      → Responds statuses (recover (get_valid_token codec outside app id >>= rest) handler w)
  with_token statuses id rest handler w answers fails =
      Run-recover _ _ (λ _ _. Unit {0}) _ _ _ _
        (Run-bind (λ _ _. Unit {0}) _ _ _ _ _ _ (token-Settled id w) (λ token v _. answers token v))
        (λ m v _. fails m v)

  list_route-Responds :
      (id : String) (w : World R)
      → Responds (200 ∷ 500 ∷ []) (list_route codec outside app env day id w)
  unfolding list_route
  list_route-Responds id w =
      with_token (200 ∷ 500 ∷ []) id _ _ w
        (λ token v.
          Run-bind (λ _ _. Unit {0}) _ _ _ _ _ _
            (Run-mono _ _ _ _ _ _ _ _ (list-Run prompt.responsive outside env day id token v)
              (λ a u _. tt) (λ m u _. tt) (λ u h. h))
            (λ sets u _. return-Run _ _ _ _ u (inl refl)))
        (λ m v. return-Run _ _ _ _ v (inr (inl refl)))

  provision_route-Responds :
      (id : String) (name : Option String) (w : World R)
      → Responds (200 ∷ 201 ∷ 401 ∷ 500 ∷ []) (provision_route codec outside app env day id name w)
  unfolding provision_route
  provision_route-Responds id name w =
      with_token (200 ∷ 201 ∷ 401 ∷ 500 ∷ []) id _ _ w
        (λ token v.
          Run-bind (λ _ _. Unit {0}) _ _ _ _ _ _
            (Run-mono _ _ _ _ _ _ _ _
              (provision-Run prompt.responsive outside env day id token name v) (λ a u _. tt)
              (λ m u _. tt) (λ u h. h))
            (λ result u _. return-Run _ _ _ _ u (provision_answer-status id result)))
        (λ m v. return-Run _ _ _ _ v (provision_failure-status id m))

  create_named-Responds :
      (id : String) (name : Option String) (w : World R)
      → Responds (201 ∷ 400 ∷ 500 ∷ []) (create_named codec outside app env day id name w)
  unfolding create_named
  create_named-Responds id none w = return-Run _ _ _ _ w (inr (inl refl))
  create_named-Responds id (some name) w =
      with_token (201 ∷ 400 ∷ 500 ∷ []) id _ _ w
        (λ token v.
          Run-bind (λ _ _. Unit {0}) _ _ _ _ _ _
            (Run-mono _ _ _ _ _ _ _ _
              (create-Run prompt.responsive outside env day id token (some name) v) (λ a u _. tt)
              (λ m u _. tt) (λ u h. h))
            (λ made u _.
              Run-bind (λ _ _. Unit {0}) _ _ _ _ _ _ (select-Settled id made.event_set_id token u)
                (λ s t _. return-Run _ _ _ _ t (inl refl))))
        (λ m v. return-Run _ _ _ _ v (inr (inr (inl refl))))

  select_valid-Responds :
      (id : String) (set : Option String) (w : World R)
      → Responds (200 ∷ 400 ∷ 404 ∷ 500 ∷ []) (select_valid codec outside app env day id set w)
  unfolding select_valid
  select_valid-Responds id none w = return-Run _ _ _ _ w (inr (inl refl))
  select_valid-Responds id (some set) w =
      with_token (200 ∷ 400 ∷ 404 ∷ 500 ∷ []) id _ _ w
        (λ token v.
          Run-bind (λ _ _. Unit {0}) _ _ _ _ _ _ (select-Settled id set token v)
            (λ s u _. return-Run _ _ _ _ u (inl refl)))
        (λ m v. return-Run _ _ _ _ v (select_failure-status m))

  active_route-Responds :
      (id : String) (w : World R)
      → Responds (200 ∷ 404 ∷ []) (active_route codec outside app env day id w)
  unfolding active_route
  active_route-Responds id w =
      Run-recover _ _ (λ _ _. Unit {0}) _ _ _ _
        (Run-bind (λ _ _. Unit {0}) _ _ _ _ _ _
          (Run-mono _ _ _ _ _ _ _ _
            (resolve-Settles prompt.responsive outside env (λ l now. Unit {0}) id w tt)
            (λ a v _. tt) (λ m v _. tt) (λ v h. h))
          (λ set v _. return-Run _ _ _ _ v (inl refl)))
        (λ m v _. return-Run _ _ _ _ v (inr (inl refl)))

  -- Where no command of Redis hangs, every handler of the event sets answers, whatever the request
  -- and whatever Postgres and TikTok answer, and an error of what it calls never leaves it. The
  -- status is 200, 201, 401 or 500 for provisioning, 200 or 500 for the list, 201, 400 or 500 for a
  -- creation, 200, 400, 404 or 500 for a selection, and 200 or 404 for the active event set.
  pub routes-Responds :
      (id : String) (name : Option String) (body_name body_id : Option FieldValue) (w : World R)
      → Responds (200 ∷ 201 ∷ 401 ∷ 500 ∷ []) (provision_route codec outside app env day id name w)
        × Responds (200 ∷ 500 ∷ []) (list_route codec outside app env day id w)
        × Responds (201 ∷ 400 ∷ 500 ∷ []) (create_route codec outside app env day id body_name w)
        × Responds
            (200 ∷ 400 ∷ 404 ∷ 500 ∷ [])
            (select_route codec outside app env day id body_id w)
        × Responds (200 ∷ 404 ∷ []) (active_route codec outside app env day id w)
  unfolding create_route select_route
  routes-Responds id name body_name body_id w = (
    provision_route-Responds id name w,
    list_route-Responds id w,
    create_named-Responds id (valid_name body_name) w,
    select_valid-Responds id (valid_id body_id) w,
    active_route-Responds id w,
  )
