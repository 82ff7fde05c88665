-- ===== src/Auth/OAuthClient/Exchanging.antt =====
-- The exchange of an authorization code makes one call.
use salesforce_tiktok_crm.Base.{ℕ, String, ◌≡◌, refl, List, [], ◌∷◌}
use salesforce_tiktok_crm.Config.{AppCredentials}
use salesforce_tiktok_crm.Exec.{Result}
use salesforce_tiktok_crm.Exec.Rules.{Run, Run-bind, Run-mono}
use salesforce_tiktok_crm.Redis.{Redis}
use salesforce_tiktok_crm.Types.Auth.{TikTokTokenResponse}
use salesforce_tiktok_crm.World.{ApiCall, exchange_call, Outside, World}
use salesforce_tiktok_crm.World.Running.{call-Run, return-Run}
use salesforce_tiktok_crm.World.Settled.{AllResponsive}
use salesforce_tiktok_crm.Auth.TokenStore.{TokenCodec}
use salesforce_tiktok_crm.Auth.TokenStore.Effects.{upsert-Saved}
use salesforce_tiktok_crm.Auth.OAuthClient.Checking.{assert_success-Run}
use salesforce_tiktok_crm.Auth.OAuthClient.{granted, store_each, exchange_auth_code}

-- Returns or throws, in a state of which I holds.
abbrev pub RunIn : {R : Redis} {A : Type 0} (I : World R → Type 0) → Result A × World R → Type 0
RunIn I p = Run (λ _. I) (λ _. I) (λ _. ⊥) p

-- A code was exchanged, and nothing else was called.
abbrev pub Exchanged : {R : Redis} → AppCredentials → String → List ApiCall → World R → Type 0
Exchanged app code before w =
    w.calls ≡ exchange_call app.tiktok_app_id app.tiktok_app_secret code ∷ before

module _ {R : Redis} (prompt : AllResponsive R) (codec : TokenCodec) (outside : Outside)
    (app : AppCredentials) where
  store_each-Run :
      (code : String) (before : List ApiCall) (answer : TikTokTokenResponse) (start : ℕ)
      (ids : List String) (w : World R)
      → Exchanged app code before w
      → RunIn (Exchanged app code before) (store_each codec outside app answer start ids w)
  unfolding store_each
  store_each-Run code before answer start [] w k = return-Run _ _ _ [] w k
  store_each-Run code before answer start (id ∷ ids) w k =
      Run-bind (λ _. Exchanged app code before) _ _ _ _ _ _
        (Run-mono _ _ _ _ _ _ _ _
          (upsert-Saved prompt codec outside
            (λ calls. calls ≡ exchange_call app.tiktok_app_id app.tiktok_app_secret code ∷ before)
            (granted id answer.access_token answer.refresh_token answer.scope start) w k)
          (λ t v saved. saved.0.0) (λ m v c. c) (λ v h. h))
        (λ t v k'.
          Run-bind (λ _. Exchanged app code before) _ _ _ _ _ _
            (store_each-Run code before answer start ids v k')
            (λ rest v' k''. return-Run _ _ _ (t ∷ rest) v' k''))

  pub exchange_auth_code-Run :
      (code : String) (w : World R)
      → RunIn (Exchanged app code w.calls) (exchange_auth_code codec outside app code w)
  unfolding exchange_auth_code
  exchange_auth_code-Run code w =
      Run-bind (λ _. Exchanged app code w.calls) _ _ _ _ _ _
        (call-Run _ _ _ outside (exchange_call app.tiktok_app_id app.tiktok_app_secret code)
          outside.exchange w (λ a _. refl) (λ m. refl))
        (λ answer v k.
          Run-bind (λ _. Exchanged app code w.calls) _ _ _ _ _ _
            (assert_success-Run (Exchanged app code w.calls) _ _ answer.code answer.message _ v
              (λ _. k) k)
            (λ _ v' k'. store_each-Run code w.calls answer v'.now answer.advertiser_ids v' k'))
