-- ===== src/Auth/OAuthClient/Validity.antt =====
-- The token that `getValidToken` gives, and the calls that it costs.
use salesforce_tiktok_crm.Base.{
  ℕ, ◌+◌, ◌<◌, String, ◌≡◌, refl, sym, ◌∙◌, ap, Option, none, some, List, ◌∷◌, Bool-cases, inl, inr,
  ◌⊎◌, leb, arith,
}
use salesforce_tiktok_crm.Config.{AppCredentials}
use salesforce_tiktok_crm.Exec.{Result}
use salesforce_tiktok_crm.Exec.Rules.{Run, Run-bind, Run-mono, Run-and}
use salesforce_tiktok_crm.Redis.{Redis, RedisLaws}
use salesforce_tiktok_crm.Types.Auth.{time_of, StoredToken, ActiveToken}
use salesforce_tiktok_crm.World.{ApiCall, refresh_call, Tables, Outside, World}
use salesforce_tiktok_crm.World.Running.{return-Run, throw-Run, call-Run}
use salesforce_tiktok_crm.World.Settled.{AllResponsive}
use salesforce_tiktok_crm.Auth.TokenTable.{find_token}
use salesforce_tiktok_crm.Auth.TokenStore.{TokenCodec}
use salesforce_tiktok_crm.Auth.TokenStore.Effects.{
  get_active_token-Holds, get_stored_token-Run, upsert-Saved,
}
use salesforce_tiktok_crm.Auth.TokenStore.Sources.{OnSome, Source, get_active_token-Answers}
use salesforce_tiktok_crm.Auth.OAuthClient.Checking.{assert_success-Run}
use salesforce_tiktok_crm.Auth.OAuthClient.{
  one_hour, expired_grant, granted, refresh_with, refresh_stored, refresh_access_token, use_active,
  get_valid_token,
}

module _ {R : Redis} (prompt : AllResponsive R) (codec : TokenCodec) (outside : Outside)
    (app : AppCredentials) (laws : RedisLaws R) where
  -- returns with P, or throws with Q
  abbrev pub Ends-with :
      {A : Type 0} (P : A → World R → Type 0) (Q : World R → Type 0) → Result A × World R → Type 0
  Ends-with P Q p = Run P (λ _. Q) (λ _. ⊥) p

  -- a call with a refresh token, and no other
  abbrev pub Spent : StoredToken → List ApiCall → List ApiCall → Type 0
  Spent t before after =
      after ≡ refresh_call app.tiktok_app_id app.tiktok_app_secret t.refresh_token ∷ before

  Spent-from :
      (t : StoredToken) (before before' after : List ApiCall)
      → Spent t before after
      → before ≡ before'
      → Spent t before' after
  Spent-from t before before' after p q =
      p ∙ ap (◌∷◌ (refresh_call app.tiktok_app_id app.tiktok_app_secret t.refresh_token)) q

  refresh_with-Run :
      (id : String) (t : StoredToken) (start : ℕ) (w : World R)
      → Ends-with
          (λ row w'. Spent t w.calls w'.calls × (find_token id w'.tables.tokens ≡ some row))
          (λ w'. Spent t w.calls w'.calls)
          (refresh_with codec outside app id t start w)
  unfolding refresh_with
  refresh_with-Run id t start w =
      Run-bind (λ _ w'. Spent t w.calls w'.calls) _ _ _ _ _ _
        (call-Run _ _ _ outside
          (refresh_call app.tiktok_app_id app.tiktok_app_secret t.refresh_token) outside.refresh w
          (λ a _. refl) (λ m. refl))
        (λ answer w' c.
          Run-bind (λ _ w'. Spent t w.calls w'.calls) _ _ _ _ _ _
            (assert_success-Run (λ w'. Spent t w.calls w'.calls) _ _ answer.code answer.message _ w'
              (λ _. c) c)
            (λ _ v c'.
              Run-mono _ _ _ _ _ _ _ _
                (upsert-Saved prompt codec outside (Spent t w.calls)
                  (granted id answer.access_token answer.refresh_token answer.scope start) v c')
                (λ row v' saved. saved.0) (λ m v' k. k) (λ v' k. k)))

  -- the call was made with the refresh token of the advertiser's row, which had not expired
  abbrev pub Called : String → World R → World R → Type 0
  Called id w₀ w =
      (t : StoredToken) × (find_token id w₀.tables.tokens ≡ some t)
      × (w₀.now < t.refresh_token_expires_at)
      × Spent t w₀.calls w.calls

  abbrev pub Refreshed : String → World R → StoredToken → World R → Type 0
  Refreshed id w₀ row w = Called id w₀ w × (find_token id w.tables.tokens ≡ some row)

  abbrev pub NotRefreshed : String → World R → World R → Type 0
  NotRefreshed id w₀ w = (w.calls ≡ w₀.calls) ⊎ Called id w₀ w

  -- nothing that matters has changed
  abbrev pub Same : World R → Tables → List ApiCall → ℕ → Type 0
  Same w₀ tables calls now = (tables ≡ w₀.tables) × (calls ≡ w₀.calls) × (now ≡ w₀.now)

  refresh_stored-Run :
      (id : String) (o : Option StoredToken) (w₀ w : World R)
      → Same w₀ w.tables w.calls w.now
      → o ≡ find_token id w₀.tables.tokens
      → Ends-with (Refreshed id w₀) (NotRefreshed id w₀) (refresh_stored codec outside app id o w)
  unfolding refresh_stored
  refresh_stored-Run id none w₀ w same found = throw-Run _ _ _ _ w (inl same.1)
  refresh_stored-Run id (some t) w₀ w same found =
      elim (Bool-cases (leb t.refresh_token_expires_at w.now)) [
        | inl e ↦ rw e (throw-Run _ _ _ (expired_grant id) w (inl same.1))
        | inr e ↦
            let usable : w₀.now < t.refresh_token_expires_at = ground (arith, same.2) in
            rw e (
              Run-mono _ _ _ _ _ _ _ _ (refresh_with-Run id t w.now w)
                (λ row v k. ((t, sym found, usable, Spent-from t _ _ _ k.0 same.1), k.1))
                (λ m v k. inr (t, sym found, usable, Spent-from t _ _ _ k same.1)) (λ v k. k))
      ]

  pub refresh_access_token-Run :
      (id : String) (w₀ w : World R)
      → Same w₀ w.tables w.calls w.now
      → Ends-with
          (Refreshed id w₀)
          (NotRefreshed id w₀)
          (refresh_access_token codec outside app id w)
  unfolding refresh_access_token
  refresh_access_token-Run id w₀ w same =
      Run-bind (λ o v. Same w₀ v.tables v.calls v.now × (o ≡ find_token id w.tables.tokens)) _ _ _ _
        _ _
        (Run-mono _ _ _ _ _ _ _ _ (get_stored_token-Run prompt codec outside (Same w₀) id w same)
          (λ o v k. k) (λ m v k. inl k.1) (λ v k. k))
        (λ o v k.
          refresh_stored-Run id o w₀ v k.0
            (k.1 ∙ ap (λ (t : Tables). find_token id t.tokens) same.0))

  -- A token of the cache or the table without a call, more than an hour before it expires; or the one of the advertiser's row
  -- after one refresh.
  abbrev pub Valid : String → World R → String → World R → Type 0
  Valid id w₀ token w =
      ((w.calls ≡ w₀.calls)
        × ((a : ActiveToken) × Source laws codec outside id w₀ a
            × (a.access_token ≡ token)
            × (w₀.now + one_hour < time_of a.expires_at)))
      ⊎ ((row : StoredToken) × Refreshed id w₀ row w × (row.access_token ≡ token))

  use_active-Run :
      (id : String) (o : Option ActiveToken) (w₀ w : World R)
      → Same w₀ w.tables w.calls w.now
      → OnSome (Source laws codec outside id w₀) o
      → Ends-with (Valid id w₀) (NotRefreshed id w₀) (use_active codec outside app id o w)
  unfolding use_active
  use_active-Run id none w₀ w same source = throw-Run _ _ _ _ w (inl same.1)
  use_active-Run id (some a) w₀ w same source =
      elim (Bool-cases (leb (time_of a.expires_at) (w.now + one_hour))) [
        | inl e ↦ rw e (
            Run-bind (Refreshed id w₀) _ _ _ _ _ _ (refresh_access_token-Run id w₀ w same)
              (λ row v k. return-Run _ _ _ row.access_token v (inr (row, k, refl))))
        | inr e ↦
            let fresh : w₀.now + one_hour < time_of a.expires_at = ground (arith, same.2) in
            rw e (return-Run _ _ _ a.access_token w (inl (same.1, (a, source, refl, fresh))))
      ]

  -- Where no command of Redis hangs, `getValidToken` returns or throws, whatever Postgres and TikTok
  -- answer. A token that it returns either cost no call, is the advertiser's in the cache or the
  -- table, and expires more than an hour from then, or is the access token of the advertiser's row after one call, made with the refresh token of the
  -- row that was there, which had not expired. Where it throws, it has made that call or none.
  pub get_valid_token-Valid :
      (id : String) (w : World R)
      → Ends-with (Valid id w) (NotRefreshed id w) (get_valid_token codec outside app id w)
  unfolding get_valid_token
  get_valid_token-Valid id w =
      Run-bind (λ o v. Same w v.tables v.calls v.now × OnSome (Source laws codec outside id w) o) _
        _ _ _ _ _
        (Run-mono _ _ _ _ _ _ _ _
          (Run-and _ _ _ _ _ _ _ _
            (get_active_token-Holds prompt codec outside (Same w) id w (refl, refl, refl))
            (get_active_token-Answers laws codec outside prompt id w))
          (λ o v k. k) (λ m v k. inl k.0.1) (λ v k. k.0))
        (λ o v k. use_active-Run id o w v k.0 k.1)
