-- ===== src/System/EventSetRoutes.antt =====
-- The event set routes keep what their statements keep.
use salesforce_tiktok_crm.Base.{ℕ, String, Option, none, some}
use salesforce_tiktok_crm.Config.{Env, AppCredentials}
use salesforce_tiktok_crm.Exec.{Exec, ok, recover, ◌>>=◌}
use salesforce_tiktok_crm.Redis.{Redis}
use salesforce_tiktok_crm.Types.{FieldValue}
use salesforce_tiktok_crm.Http.{HttpResponse}
use salesforce_tiktok_crm.World.{Outside, World}
use salesforce_tiktok_crm.World.Keeping.{History, At, Keeps, Keeps-run, Keeps-bind, Keeps-recover}
use salesforce_tiktok_crm.Auth.TokenStore.{TokenCodec}
use salesforce_tiktok_crm.Auth.OAuthClient.{get_valid_token}
use salesforce_tiktok_crm.EventSet.Routes.{
  valid_name, valid_id, provision_route, list_route, create_named, create_route, select_valid,
  select_route, active_route,
}
use salesforce_tiktok_crm.System.Stable.{Stable}
use salesforce_tiktok_crm.System.Authorization.{get_valid_token-Keeps}
use salesforce_tiktok_crm.System.EventSets.{
  resolve-Keeps, list-Keeps, create-Keeps, provision-Keeps, select-Keeps,
}

module _ {R : Redis} (J : History) (stable : Stable J) (codec : TokenCodec) (outside : Outside)
    (app : AppCredentials) (env : Env) (day : ℕ → String) where
  -- the token first, and an answer for every error
  with_token :
      (id : String) (rest : String → Exec (World R) HttpResponse)
      (handler : String → Exec (World R) HttpResponse) (w : World R)
      → At J w
      → ((token : String) (v : World R) → At J v → Keeps J (rest token v))
      → ((m : String) (v : World R) → At J v → Keeps J (handler m v))
      → Keeps J (recover (get_valid_token codec outside app id >>= rest) handler w)
  with_token id rest handler w i goes_on fails =
      Keeps-recover J _ _ _
        (Keeps-bind J _ _ _ (get_valid_token-Keeps J stable codec outside app id w i) goes_on) fails

  pub provision_route-Keeps :
      (id : String) (name : Option String) (w : World R)
      → At J w
      → Keeps J (provision_route codec outside app env day id name w)
  unfolding provision_route
  provision_route-Keeps id name w i =
      with_token id _ _ w i
        (λ token v j.
          Keeps-bind J _ _ _ (provision-Keeps J stable outside env day id token name v j)
            (λ _ v' j'. Keeps-run J (ok _) v' j'))
        (λ m v j. Keeps-run J (ok _) v j)

  pub list_route-Keeps :
      (id : String) (w : World R) → At J w → Keeps J (list_route codec outside app env day id w)
  unfolding list_route
  list_route-Keeps id w i =
      with_token id _ _ w i
        (λ token v j.
          Keeps-bind J _ _ _ (list-Keeps J stable outside env day id token v j)
            (λ _ v' j'. Keeps-run J (ok _) v' j'))
        (λ m v j. Keeps-run J (ok _) v j)

  create_named-Keeps :
      (id : String) (name : Option String) (w : World R)
      → At J w
      → Keeps J (create_named codec outside app env day id name w)
  unfolding create_named
  create_named-Keeps id none w i = Keeps-run J (ok _) w i
  create_named-Keeps id (some name) w i =
      with_token id _ _ w i
        (λ token v j.
          Keeps-bind J _ _ _ (create-Keeps J stable outside env day id token (some name) v j)
            (λ made v' j'.
              Keeps-bind J _ _ _
                (select-Keeps J stable outside env day id made.event_set_id token v' j')
                (λ _ u k. Keeps-run J (ok _) u k)))
        (λ m v j. Keeps-run J (ok _) v j)

  pub create_route-Keeps :
      (id : String) (name : Option FieldValue) (w : World R)
      → At J w
      → Keeps J (create_route codec outside app env day id name w)
  unfolding create_route
  create_route-Keeps id name w i = create_named-Keeps id (valid_name name) w i

  select_valid-Keeps :
      (id : String) (set : Option String) (w : World R)
      → At J w
      → Keeps J (select_valid codec outside app env day id set w)
  unfolding select_valid
  select_valid-Keeps id none w i = Keeps-run J (ok _) w i
  select_valid-Keeps id (some set) w i =
      with_token id _ _ w i
        (λ token v j.
          Keeps-bind J _ _ _ (select-Keeps J stable outside env day id set token v j)
            (λ _ v' j'. Keeps-run J (ok _) v' j'))
        (λ m v j. Keeps-run J (ok _) v j)

  pub select_route-Keeps :
      (id : String) (set : Option FieldValue) (w : World R)
      → At J w
      → Keeps J (select_route codec outside app env day id set w)
  unfolding select_route
  select_route-Keeps id set w i = select_valid-Keeps id (valid_id set) w i

  pub active_route-Keeps :
      (id : String) (w : World R) → At J w → Keeps J (active_route codec outside app env day id w)
  unfolding active_route
  active_route-Keeps id w i =
      Keeps-recover J _ _ _
        (Keeps-bind J _ _ _ (resolve-Keeps J stable outside env id w i)
          (λ _ v j. Keeps-run J (ok _) v j))
        (λ m v j. Keeps-run J (ok _) v j)
