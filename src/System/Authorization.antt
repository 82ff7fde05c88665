-- ===== src/System/Authorization.antt =====
-- The OAuth client and the refresher keep what the token store keeps.
use salesforce_tiktok_crm.Base.{
  ℕ, ◌+◌, String, Option, none, some, List, [], ◌∷◌, Bool-cases, inl, inr, leb, ltb, nat_eq,
}
use salesforce_tiktok_crm.Config.{AppCredentials}
use salesforce_tiktok_crm.Exec.{ok, thrown}
use salesforce_tiktok_crm.Redis.{Redis}
use salesforce_tiktok_crm.Types.Auth.{time_of, StoredToken, ActiveToken, TikTokTokenResponse}
use salesforce_tiktok_crm.World.{exchange_call, refresh_call, Outside, World}
use salesforce_tiktok_crm.World.Keeping.{
  History, At, Keeps, Keeps-run, Keeps-bind, Keeps-recover, call-Keeps,
}
use salesforce_tiktok_crm.Auth.TokenStore.{TokenCodec}
use salesforce_tiktok_crm.Auth.OAuthClient.{
  one_hour, assert_success, granted, store_each, exchange_auth_code, refresh_with, refresh_stored,
  refresh_access_token, use_active, get_valid_token,
}
use salesforce_tiktok_crm.Auth.Refresher.{
  skipped, refreshed_one, failed_one, refresh_if_expiring, refresh_task, refresh_each, refresh_all,
}
use salesforce_tiktok_crm.System.Stable.{Stable}
use salesforce_tiktok_crm.System.Tokens.{
  get_active_token-Keeps, get_stored_token-Keeps, list_active_advertiser_ids-Keeps, upsert-Keeps,
}

module _ {R : Redis} (J : History) where
  pub assert_success-Keeps :
      (n : ℕ) (text context : String) (w : World R)
      → At J w
      → Keeps J (assert_success n text context w)
  unfolding assert_success
  assert_success-Keeps n text context w i = elim (Bool-cases (nat_eq n 0)) [
    | inl e ↦ rw e (Keeps-run J (ok tt) w i)
    | inr e ↦ rw e (Keeps-run J (thrown _) w i)
  ]

module _ {R : Redis} (J : History) (stable : Stable J) (codec : TokenCodec) (outside : Outside)
    (app : AppCredentials) where
  store_each-Keeps :
      (answer : TikTokTokenResponse) (start : ℕ) (ids : List String) (w : World R)
      → At J w
      → Keeps J (store_each codec outside app answer start ids w)
  unfolding store_each
  store_each-Keeps answer start [] w i = Keeps-run J (ok []) w i
  store_each-Keeps answer start (id ∷ ids) w i =
      Keeps-bind J _ _ _
        (upsert-Keeps J stable codec outside
          (granted id answer.access_token answer.refresh_token answer.scope start) w i)
        (λ t v j.
          Keeps-bind J _ _ _ (store_each-Keeps answer start ids v j)
            (λ ts v' j'. Keeps-run J (ok (t ∷ ts)) v' j'))

  pub exchange_auth_code-Keeps :
      (code : String) (w : World R) → At J w → Keeps J (exchange_auth_code codec outside app code w)
  unfolding exchange_auth_code
  exchange_auth_code-Keeps code w i =
      Keeps-bind J _ _ _
        (call-Keeps J outside (exchange_call app.tiktok_app_id app.tiktok_app_secret code)
          outside.exchange w i)
        (λ answer v j.
          Keeps-bind J _ _ _ (assert_success-Keeps J answer.code answer.message _ v j)
            (λ _ v' j'. store_each-Keeps answer v'.now answer.advertiser_ids v' j'))

  refresh_with-Keeps :
      (id : String) (t : StoredToken) (start : ℕ) (w : World R)
      → At J w
      → Keeps J (refresh_with codec outside app id t start w)
  unfolding refresh_with
  refresh_with-Keeps id t start w i =
      Keeps-bind J _ _ _
        (call-Keeps J outside (refresh_call app.tiktok_app_id app.tiktok_app_secret t.refresh_token)
          outside.refresh w i)
        (λ answer v j.
          Keeps-bind J _ _ _ (assert_success-Keeps J answer.code answer.message _ v j) (λ _ v' j'.
            upsert-Keeps J stable codec outside
              (granted id answer.access_token answer.refresh_token answer.scope start) v' j'))

  refresh_stored-Keeps :
      (id : String) (o : Option StoredToken) (w : World R)
      → At J w
      → Keeps J (refresh_stored codec outside app id o w)
  unfolding refresh_stored
  refresh_stored-Keeps id none w i = Keeps-run J (thrown _) w i
  refresh_stored-Keeps id (some t) w i = elim (Bool-cases (leb t.refresh_token_expires_at w.now)) [
    | inl e ↦ rw e (Keeps-run J (thrown _) w i)
    | inr e ↦ rw e (refresh_with-Keeps id t w.now w i)
  ]

  pub refresh_access_token-Keeps :
      (id : String) (w : World R) → At J w → Keeps J (refresh_access_token codec outside app id w)
  unfolding refresh_access_token
  refresh_access_token-Keeps id w i =
      Keeps-bind J _ _ _ (get_stored_token-Keeps J stable codec outside id w i)
        (λ o v j. refresh_stored-Keeps id o v j)

  use_active-Keeps :
      (id : String) (o : Option ActiveToken) (w : World R)
      → At J w
      → Keeps J (use_active codec outside app id o w)
  unfolding use_active
  use_active-Keeps id none w i = Keeps-run J (thrown _) w i
  use_active-Keeps id (some a) w i =
      elim (Bool-cases (leb (time_of a.expires_at) (w.now + one_hour))) [
        | inl e ↦ rw e (
            Keeps-bind J _ _ _ (refresh_access_token-Keeps id w i)
              (λ t v j. Keeps-run J (ok t.access_token) v j))
        | inr e ↦ rw e (Keeps-run J (ok a.access_token) w i)
      ]

  pub get_valid_token-Keeps :
      (id : String) (w : World R) → At J w → Keeps J (get_valid_token codec outside app id w)
  unfolding get_valid_token
  get_valid_token-Keeps id w i =
      Keeps-bind J _ _ _ (get_active_token-Keeps J stable codec outside id w i)
        (λ o v j. use_active-Keeps id o v j)

  refresh_if_expiring-Keeps :
      (id : String) (o : Option ActiveToken) (w : World R)
      → At J w
      → Keeps J (refresh_if_expiring codec outside app id o w)
  unfolding refresh_if_expiring
  refresh_if_expiring-Keeps id none w i = Keeps-run J (ok skipped) w i
  refresh_if_expiring-Keeps id (some a) w i =
      elim (Bool-cases (ltb (w.now + one_hour) (time_of a.expires_at))) [
        | inl e ↦ rw e (Keeps-run J (ok skipped) w i)
        | inr e ↦ rw e (
            Keeps-bind J _ _ _ (refresh_access_token-Keeps id w i)
              (λ _ v j. Keeps-run J (ok refreshed_one) v j))
      ]

  refresh_task-Keeps :
      (id : String) (w : World R) → At J w → Keeps J (refresh_task codec outside app id w)
  unfolding refresh_task
  refresh_task-Keeps id w i =
      Keeps-recover J _ _ _
        (Keeps-bind J _ _ _ (get_active_token-Keeps J stable codec outside id w i)
          (λ o v j. refresh_if_expiring-Keeps id o v j))
        (λ m v j. Keeps-run J (ok failed_one) v j)

  refresh_each-Keeps :
      (ids : List String) (w : World R) → At J w → Keeps J (refresh_each codec outside app ids w)
  unfolding refresh_each
  refresh_each-Keeps [] w i = Keeps-run J (ok _) w i
  refresh_each-Keeps (id ∷ ids) w i = Keeps-bind J _ _ _ (refresh_task-Keeps id w i) (λ end v j.
      Keeps-bind J _ _ _ (refresh_each-Keeps ids v j) (λ s v' j'. Keeps-run J (ok _) v' j'))

  pub refresh_all-Keeps : (w : World R) → At J w → Keeps J (refresh_all codec outside app w)
  unfolding refresh_all
  refresh_all-Keeps w i =
      Keeps-bind J _ _ _ (list_active_advertiser_ids-Keeps J stable codec outside w i)
        (λ ids v j. refresh_each-Keeps (outside.completion ids) v j)
