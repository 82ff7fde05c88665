-- ===== src/Auth/Routes/Flow.antt =====
-- An authorization from the start to the callback.
use salesforce_tiktok_crm.Base.{
  ◌+◌, ◌*◌, ◌≤◌, ◌<◌, String, ◌≡◌, refl, sym, ap, ◌∙◌, Option, none, some, List, true, false, ltb,
  arith, inl, inr, ◌⊎◌, eq_refl,
}
use salesforce_tiktok_crm.Text.{non_empty, truthy_text}
use salesforce_tiktok_crm.Config.{AppCredentials}
use salesforce_tiktok_crm.Exec.{Result, ok, thrown, hangs, return, go_on, recover_from}
use salesforce_tiktok_crm.Exec.Rules.{Run, Run-bind, Run-recover, Run-mono, Run-and, Run-says}
use salesforce_tiktok_crm.Redis.{Redis, RedisLaws}
use salesforce_tiktok_crm.Types.Auth.{StoredToken}
use salesforce_tiktok_crm.Http.{HttpResponse, redirect}
use salesforce_tiktok_crm.World.{Outside, World, command}
use salesforce_tiktok_crm.World.Running.{return-Run}
use salesforce_tiktok_crm.World.Settled.{AllResponsive}
use salesforce_tiktok_crm.Auth.TokenStore.{
  TokenCodec, state_key, oauth_state_ttl, found_state, store_state,
}
use salesforce_tiktok_crm.Auth.TokenStore.States.{get_and_delete_state-value, found_state-some}
use salesforce_tiktok_crm.Auth.OAuthClient.{
  build_authorization_url, generate_state_token, exchange_auth_code,
}
use salesforce_tiktok_crm.Auth.OAuthClient.Exchanging.{Exchanged, exchange_auth_code-Run}
use salesforce_tiktok_crm.Auth.OAuthClient.Granting.{Granted, exchange_auth_code-Granted}
use salesforce_tiktok_crm.Auth.Routes.{
  failure, authorized, CallbackQuery, is_denied, begin, exchange_and_answer, on_verified,
  verify_and_exchange, with_state, with_code, callback,
}
use salesforce_tiktok_crm.Auth.Routes.Forgery.{verified}

abbrev url_of : Result HttpResponse → String
url_of (ok (redirect url)) = url
url_of _ = ""

module _ {R : Redis} (laws : RedisLaws R) (prompt : AllResponsive R) (codec : TokenCodec)
    (outside : Outside) (app : AppCredentials) (digest encode : String → String) where
  -- The code was sent to TikTok, and nothing else was called. Every advertiser of TikTok's answer has
  -- the new token, and the answer lists them; or the exchange threw, and the answer says so.
  abbrev pub Finishes : String → World R → Result HttpResponse × World R → Type 0
  Finishes code w₀ p =
      Run
        (λ answer w.
          Exchanged app code w₀.calls w
          × (((tokens : List StoredToken) × (answer ≡ authorized tokens)
                × Granted prompt codec outside app w₀ tokens w)
              ⊎ ((m : String) × ((exchange_auth_code codec outside app code w₀).0 ≡ thrown m)
                  × (answer ≡ failure 500 "Token exchange failed"))))
        (λ _ _. ⊥) (λ _. ⊥) p

  exchange_auth_code-Both :
      (code : String) (w : World R)
      → Run
          (λ tokens v. Granted prompt codec outside app w tokens v × Exchanged app code w.calls v)
          (λ m v.
            Exchanged app code w.calls v
            × ((exchange_auth_code codec outside app code w).0 ≡ thrown m))
          (λ _. ⊥)
          (exchange_auth_code codec outside app code w)
  exchange_auth_code-Both code w = Run-says _ _ _ _ _ (
      Run-mono _ _ _ _ _ _ _ _
        (Run-and _ _ _ _ _ _ _ _ (exchange_auth_code-Granted prompt codec outside app code w)
          (exchange_auth_code-Run prompt codec outside app code w))
        (λ a s k. k) (λ m s k. k.1) (λ s k. k.1))

  exchange_and_answer-Finishes :
      (code value : String) (w : World R)
      → Finishes code w (
          exchange_and_answer codec outside app digest encode code
            (record { value = value; redirect_after = none })
            w)
  unfolding exchange_and_answer
  exchange_and_answer-Finishes code value w =
      Run-recover _ _
        (λ m v.
          Exchanged app code w.calls v
          × ((exchange_auth_code codec outside app code w).0 ≡ thrown m))
        _ _ _ _
        (Run-bind
          (λ tokens v. Granted prompt codec outside app w tokens v × Exchanged app code w.calls v) _
          _ _ _ _ _ (exchange_auth_code-Both code w)
          (λ tokens v k. return-Run _ _ _ (authorized tokens) v (k.1, inl (tokens, refl, k.0))))
        (λ m v k.
          return-Run _ _ _ (failure 500 "Token exchange failed") v (k.0, inr (m, k.1, refl)))

  -- the state is gone, and nothing else has changed
  abbrev pub redeemed : String → World R → World R
  redeemed state w = record w { redis = (R.getdel (state_key state) w.now w.redis).1 }

  callback-held :
      (query : CallbackQuery) (code state : String) (o : Option String) (w : World R)
      → is_denied query.error ≡ false
      → truthy_text query.auth_code ≡ some code
      → truthy_text query.state ≡ some state
      → non_empty state ≡ some state
      → R.value w.redis w.now (state_key state) ≡ some state
      → (R.getdel (state_key state) w.now w.redis).0 ≡ ok o
      → Finishes code (redeemed state w) (callback codec outside app digest encode query w)
  unfolding callback with_code with_state verify_and_exchange on_verified
  callback-held query code state o w wanted has_code has_state some_state held answers =
      let given : found_state (R.value w.redis w.now (state_key state))
          ≡ some (record { value = state; redirect_after = none }) =
        rw held (found_state-some state some_state) in
      rw
        (
          wanted,
          has_code,
          has_state,
          get_and_delete_state-value laws codec outside state w o answers,
          given,
          verified laws prompt codec outside app digest encode state state _,
          eq_refl (digest state),
        )
        (exchange_and_answer-Finishes code state _)

  abbrev redirected : String → Result (Unit {0}) → World R → Result HttpResponse × World R
  redirected state r v =
      let (s, u) = go_on r v (λ _.
        return (redirect (build_authorization_url encode app app.tiktok_redirect_uri state))) in
      recover_from s u (λ _. return (failure 500 "Failed to initiate OAuth flow"))

  -- a redirect is answered where the state was stored, and the connection is the one after that
  begin-redirect :
      (url : String) (w : World R)
      → (begin codec outside app digest encode w).0 ≡ ok (redirect url)
      → ((R.set_ex
            (state_key (outside.random w.randoms))
            (outside.random w.randoms)
            oauth_state_ttl
            w.now
            w.redis).0
          ≡ ok tt)
        × ((begin codec outside app digest encode w).1.redis
            ≡ (R.set_ex
                (state_key (outside.random w.randoms))
                (outside.random w.randoms)
                oauth_state_ttl
                w.now
                w.redis).1)
        × (url
            ≡ build_authorization_url encode app app.tiktok_redirect_uri (outside.random w.randoms))
  unfolding begin generate_state_token store_state command
  begin-redirect url w = by_result (outside.random w.randoms) _ _
    where
      by_result :
          (state : String) (r : Result (Unit {0})) (v : World R)
          → (redirected state r v).0 ≡ ok (redirect url)
          → (r ≡ ok tt)
            × ((redirected state r v).1.redis ≡ v.redis)
            × (url ≡ build_authorization_url encode app app.tiktok_redirect_uri state)
      by_result state (ok tt) v h = (refl, refl, sym (ap url_of h))
      by_result state (thrown m) v h = cc
      by_result state hangs v h = cc

  -- An authorization that was begun is carried through. Where no command of Redis hangs and the
  -- random state is not empty: once the start has answered with a redirect, to TikTok's page with
  -- the state, a callback with that state and a code, within ten minutes, with the connection to
  -- Redis as the start left it and an answer of Redis to it, sends the code to TikTok once and calls
  -- no other endpoint. It answers with the advertisers that TikTok's answer lists, each of which has
  -- the new access token in the table; or with status 500, and then `exchangeAuthCode` threw.
  pub begin-callback :
      (query : CallbackQuery) (code url : String) (o : Option String) (w later : World R)
      → non_empty (outside.random w.randoms) ≡ some (outside.random w.randoms)
      → (begin codec outside app digest encode w).0 ≡ ok (redirect url)
      → is_denied query.error ≡ false
      → truthy_text query.auth_code ≡ some code
      → query.state ≡ some (outside.random w.randoms)
      → later.redis ≡ (begin codec outside app digest encode w).1.redis
      → w.now ≤ later.now
      → later.now < w.now + 1000 * oauth_state_ttl
      → (R.getdel (state_key (outside.random w.randoms)) later.now later.redis).0 ≡ ok o
      → (url
          ≡ build_authorization_url encode app app.tiktok_redirect_uri (outside.random w.randoms))
        × Finishes code
            (redeemed (outside.random w.randoms) later)
            (callback codec outside app digest encode query later)
  begin-callback query code url o w later some_state begun wanted has_code has_state same after
        within answers =
      let state = outside.random w.randoms in
      let (stored, kept, address) = begin-redirect url w begun in
      let in_time : ltb later.now (w.now + 1000 * oauth_state_ttl) ≡ true =
        ground (arith, within) in
      let held : R.value later.redis later.now (state_key state) ≡ some state =
        rw (same, kept)
          (laws.set_ex_value (state_key state) state oauth_state_ttl w.now w.redis later.now
              (state_key state) stored after
            ∙ rw (eq_refl (state_key state), in_time) refl) in
      let has_state' : truthy_text query.state ≡ some state = rw has_state some_state in
      (
        address,
        callback-held query code state o later wanted has_code has_state' some_state held answers,
      )
