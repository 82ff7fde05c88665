-- ===== src/System/OAuthRoutes.antt =====
-- The OAuth routes keep what the token store keeps.
use salesforce_tiktok_crm.Base.{
  String, Option, none, some, Bool, true, false, Bool-cases, inl, inr, ◌==◌,
}
use salesforce_tiktok_crm.Text.{truthy_text}
use salesforce_tiktok_crm.Config.{AppCredentials}
use salesforce_tiktok_crm.Exec.{ok, thrown}
use salesforce_tiktok_crm.Redis.{Redis}
use salesforce_tiktok_crm.World.{Outside, World}
use salesforce_tiktok_crm.World.Keeping.{History, At, Keeps, Keeps-run, Keeps-bind, Keeps-recover}
use salesforce_tiktok_crm.Auth.TokenStore.{TokenCodec, FoundState}
use salesforce_tiktok_crm.Auth.OAuthClient.{generate_state_token, verify_state}
use salesforce_tiktok_crm.Auth.Routes.{
  CallbackQuery, is_denied, begin, exchange_and_answer, on_verified, verify_and_exchange,
  with_state, with_code, callback, QueryForm, texts, object_state, with_object_state,
  answer_callback, refused_object, status, refresh_route, revoke_route,
}
use salesforce_tiktok_crm.System.Stable.{Stable}
use salesforce_tiktok_crm.System.Tokens.{
  list_active_advertiser_ids-Keeps, revoke-Keeps, store_state-Keeps, get_and_delete_state-Keeps,
}
use salesforce_tiktok_crm.System.Authorization.{
  exchange_auth_code-Keeps, refresh_access_token-Keeps,
}

module _ {R : Redis} (J : History) (stable : Stable J) (codec : TokenCodec) (outside : Outside)
    (app : AppCredentials) (digest encode : String → String) where
  pub begin-Keeps : (w : World R) → At J w → Keeps J (begin codec outside app digest encode w)
  unfolding begin generate_state_token
  begin-Keeps w i =
      Keeps-recover J _ _ _
        (Keeps-bind J _ _ _
          (store_state-Keeps J stable codec outside (outside.random w.randoms) _ i)
          (λ _ v j. Keeps-run J (ok _) v j))
        (λ m v j. Keeps-run J (ok _) v j)

  on_verified-Keeps :
      (b : Bool) (code : String) (stored : FoundState) (w : World R)
      → At J w
      → Keeps J (on_verified codec outside app digest encode b code stored w)
  unfolding on_verified exchange_and_answer
  on_verified-Keeps false code stored w i = Keeps-run J (ok _) w i
  on_verified-Keeps true code stored w i =
      Keeps-recover J _ _ _
        (Keeps-bind J _ _ _ (exchange_auth_code-Keeps J stable codec outside app code w i)
          (λ ts v j. Keeps-run J (ok _) v j))
        (λ m v j. Keeps-run J (ok _) v j)

  verify_state-Keeps :
      (received expected : String) (w : World R)
      → At J w
      → Keeps J (verify_state digest received expected w)
  unfolding verify_state
  verify_state-Keeps received expected w i =
      elim (Bool-cases (digest received == digest expected)) [
        | inl e ↦ rw e (Keeps-run J (ok tt) w i)
        | inr e ↦ rw e (Keeps-run J (thrown _) w i)
      ]

  verify_and_exchange-Keeps :
      (code state : String) (o : Option FoundState) (w : World R)
      → At J w
      → Keeps J (verify_and_exchange codec outside app digest encode code state o w)
  unfolding verify_and_exchange
  verify_and_exchange-Keeps code state none w i = Keeps-run J (ok _) w i
  verify_and_exchange-Keeps code state (some stored) w i =
      Keeps-bind J _ _ _
        (Keeps-recover J _ _ _
          (Keeps-bind J _ _ _ (verify_state-Keeps state stored.value w i)
            (λ _ v j. Keeps-run J (ok true) v j))
          (λ m v j. Keeps-run J (ok false) v j))
        (λ b v j. on_verified-Keeps b code stored v j)

  with_state-Keeps :
      (code : String) (o : Option String) (w : World R)
      → At J w
      → Keeps J (with_state codec outside app digest encode code o w)
  unfolding with_state
  with_state-Keeps code none w i = Keeps-run J (ok _) w i
  with_state-Keeps code (some state) w i =
      Keeps-bind J _ _ _ (get_and_delete_state-Keeps J stable codec outside state w i)
        (λ o v j. verify_and_exchange-Keeps code state o v j)

  with_code-Keeps :
      (o state : Option String) (w : World R)
      → At J w
      → Keeps J (with_code codec outside app digest encode o state w)
  unfolding with_code
  with_code-Keeps none state w i = Keeps-run J (ok _) w i
  with_code-Keeps (some code) state w i = with_state-Keeps code state w i

  pub callback-Keeps :
      (query : CallbackQuery) (w : World R)
      → At J w
      → Keeps J (callback codec outside app digest encode query w)
  unfolding callback
  callback-Keeps query w i = elim (Bool-cases (is_denied query.error)) [
    | inl e ↦ rw e (Keeps-run J (ok _) w i)
    | inr e ↦ rw e (with_code-Keeps (truthy_text query.auth_code) (truthy_text query.state) w i)
  ]

  with_object_state-Keeps :
      (code shown : Option String) (w : World R)
      → At J w
      → Keeps J (with_object_state codec outside app digest encode code shown w)
  unfolding with_object_state
  with_object_state-Keeps none shown w i = Keeps-run J (ok _) w i
  with_object_state-Keeps (some code) none w i = Keeps-run J (thrown _) w i
  with_object_state-Keeps (some code) (some key) w i =
      Keeps-bind J _ _ _ (get_and_delete_state-Keeps J stable codec outside key w i)
        (λ o v j. Keeps-run J (ok (refused_object o)) v j)

  pub answer_callback-Keeps :
      (form : QueryForm) (w : World R)
      → At J w
      → Keeps J (answer_callback codec outside app digest encode form w)
  unfolding answer_callback
  answer_callback-Keeps (texts query) w i = callback-Keeps query w i
  answer_callback-Keeps (object_state auth_code error shown) w i =
      elim (Bool-cases (is_denied error)) [
        | inl e ↦ rw e (Keeps-run J (ok _) w i)
        | inr e ↦ rw e (with_object_state-Keeps (truthy_text auth_code) shown w i)
      ]

  pub status-Keeps : (w : World R) → At J w → Keeps J (status codec outside app digest encode w)
  unfolding status
  status-Keeps w i =
      Keeps-recover J _ _ _
        (Keeps-bind J _ _ _ (list_active_advertiser_ids-Keeps J stable codec outside w i)
          (λ ids v j. Keeps-run J (ok _) v j))
        (λ m v j. Keeps-run J (ok _) v j)

  pub refresh_route-Keeps :
      (id : String) (w : World R)
      → At J w
      → Keeps J (refresh_route codec outside app digest encode id w)
  unfolding refresh_route
  refresh_route-Keeps id w i =
      Keeps-recover J _ _ _
        (Keeps-bind J _ _ _ (refresh_access_token-Keeps J stable codec outside app id w i)
          (λ t v j. Keeps-run J (ok _) v j))
        (λ m v j. Keeps-run J (ok _) v j)

  pub revoke_route-Keeps :
      (id : String) (w : World R)
      → At J w
      → Keeps J (revoke_route codec outside app digest encode id w)
  unfolding revoke_route
  revoke_route-Keeps id w i =
      Keeps-recover J _ _ _
        (Keeps-bind J _ _ _ (revoke-Keeps J stable codec outside id w i)
          (λ _ v j. Keeps-run J (ok _) v j))
        (λ m v j. Keeps-run J (ok _) v j)
