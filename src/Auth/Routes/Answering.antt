-- ===== src/Auth/Routes/Answering.antt =====
-- Every handler of the OAuth routes answers, but for an error of Redis in the callback.
use salesforce_tiktok_crm.Base.{
  ℕ, String, ◌≡◌, refl, Option, none, some, List, [], ◌∷◌, map, Bool-cases, inl, inr, ◌==◌, ◌≢◌,
}
use salesforce_tiktok_crm.Text.{truthy_text}
use salesforce_tiktok_crm.Config.{AppCredentials}
use salesforce_tiktok_crm.Exec.{Result, ok, thrown, hangs, Exec, return, recover, ◌>>=◌}
use salesforce_tiktok_crm.Exec.Rules.{Run, Run-bind, Run-recover, Run-mono}
use salesforce_tiktok_crm.Redis.{Redis, RedisLaws}
use salesforce_tiktok_crm.Types.Auth.{StoredToken}
use salesforce_tiktok_crm.Http.{HttpResponse, status_code}
use salesforce_tiktok_crm.World.{Outside, World, command}
use salesforce_tiktok_crm.World.Running.{query-Run, command-Run, return-Run}
use salesforce_tiktok_crm.World.Settled.{AllResponsive}
use salesforce_tiktok_crm.Auth.TokenTable.{remove_token, latest_active}
use salesforce_tiktok_crm.Auth.TokenStore.{
  TokenCodec, FoundState, state_key, oauth_state_ttl, token_key, found_state, store_state,
  get_and_delete_state, list_active_advertiser_ids, revoke,
}
use salesforce_tiktok_crm.Auth.OAuthClient.{
  generate_state_token, exchange_auth_code, refresh_access_token,
}
use salesforce_tiktok_crm.Auth.OAuthClient.Exchanging.{exchange_auth_code-Run}
use salesforce_tiktok_crm.Auth.OAuthClient.Validity.{refresh_access_token-Run}
use salesforce_tiktok_crm.Auth.Routes.{
  failure, CallbackQuery, after_exchange, is_denied, begin, exchange_and_answer,
  verify_and_exchange, on_verified, with_state, with_code, callback, status_answer,
  refreshed_answer, revoked_answer, status, refresh_route, revoke_route,
}
use salesforce_tiktok_crm.Auth.Routes.Forgery.{verified}
use salesforce_tiktok_crm.EventSet.Routes.Answering.{OneOf, Responds, Settled}

module _ {R : Redis} (prompt : AllResponsive R) (codec : TokenCodec) (outside : Outside) where
  list_active-Settled : (w : World R) → Settled (list_active_advertiser_ids codec outside w)
  unfolding list_active_advertiser_ids
  list_active-Settled w =
      query-Run _ _ _ outside
        (λ t. (map (λ (row : StoredToken). row.advertiser_id) (latest_active w.now t.tokens), t)) w
        tt (λ m. tt) (λ m. tt)

  revoke-Settled : (id : String) (w : World R) → Settled (revoke codec outside id w)
  unfolding revoke
  revoke-Settled id w =
      Run-bind (λ _ _. Unit {0}) _ _ _ _ _ _
        (query-Run _ _ _ outside (λ t. (tt, record t { tokens = remove_token id t.tokens })) w tt
          (λ m. tt) (λ m. tt))
        (λ _ v _.
          command-Run _ _ _ (R.del (token_key id) w.now) v (prompt.del _ _ _) (λ a. tt) (λ m. tt))

  store_state-Settled : (state : String) (w : World R) → Settled (store_state codec outside state w)
  unfolding store_state
  store_state-Settled state w =
      command-Run _ _ _ (R.set_ex (state_key state) state oauth_state_ttl w.now) w
        (prompt.responsive.set_ex _ _ _ _ _) (λ a. tt) (λ m. tt)

  -- an answer for every end of what a handler tries
  answered :
      {A : Type 0} (statuses : List ℕ) (body : Exec (World R) A) (answer : A → HttpResponse)
      (failure : String → HttpResponse) (w : World R)
      → Settled (body w)
      → ((a : A) → OneOf statuses (status_code (answer a)))
      → ((m : String) → OneOf statuses (status_code (failure m)))
      → Responds statuses (recover (body >>= λ a. return (answer a)) (λ m. return (failure m)) w)
  answered statuses body answer failure w settled good bad =
      Run-recover _ _ (λ _ _. Unit {0}) _ _ _ _
        (Run-bind (λ _ _. Unit {0}) _ _ _ _ _ _ settled
          (λ a v _. return-Run _ _ _ (answer a) v (good a)))
        (λ m v _. return-Run _ _ _ (failure m) v (bad m))

after_exchange-status :
    (o : Option String) (tokens : List StoredToken)
    → OneOf (200 ∷ 302 ∷ 400 ∷ 403 ∷ 500 ∷ []) (status_code (after_exchange o tokens))
after_exchange-status none tokens = inl refl
after_exchange-status (some String.[]) tokens = inl refl
after_exchange-status (some (String.◌∷◌ c s)) tokens = inr (inl refl)

module _ {R : Redis} (laws : RedisLaws R) (prompt : AllResponsive R) (codec : TokenCodec)
    (outside : Outside) (app : AppCredentials) (digest encode : String → String) where
  -- An answer with one of these statuses, or the error that Redis gave for the state of the query.
  abbrev pub CallbackResponds : CallbackQuery → World R → Result HttpResponse × World R → Type 0
  CallbackResponds query w₀ p =
      Run (λ a _. OneOf (200 ∷ 302 ∷ 400 ∷ 403 ∷ 500 ∷ []) (status_code a))
        (λ m _.
          (state : String) × (truthy_text query.state ≡ some state)
          × ((R.getdel (state_key state) w₀.now w₀.redis).0 ≡ thrown m))
        (λ _. ⊥) p

  exchange_and_answer-Responds :
      (code : String) (stored : FoundState) (w : World R)
      → Responds
          (200 ∷ 302 ∷ 400 ∷ 403 ∷ 500 ∷ [])
          (exchange_and_answer codec outside app digest encode code stored w)
  unfolding exchange_and_answer
  exchange_and_answer-Responds code stored w =
      answered prompt codec outside (200 ∷ 302 ∷ 400 ∷ 403 ∷ 500 ∷ [])
        (exchange_auth_code codec outside app code) (after_exchange stored.redirect_after)
        (λ m. failure 500 "Token exchange failed") w
        (Run-mono _ _ _ _ _ _ _ _ (exchange_auth_code-Run prompt codec outside app code w)
          (λ a v _. tt) (λ m v _. tt) (λ v h. h))
        (after_exchange-status stored.redirect_after) (λ m. inr (inr (inr (inr (inl refl)))))

  verify_and_exchange-Responds :
      (code state : String) (o : Option FoundState) (w : World R)
      → Responds
          (200 ∷ 302 ∷ 400 ∷ 403 ∷ 500 ∷ [])
          (verify_and_exchange codec outside app digest encode code state o w)
  unfolding verify_and_exchange on_verified
  verify_and_exchange-Responds code state none w = return-Run _ _ _ _ w (inr (inr (inl refl)))
  verify_and_exchange-Responds code state (some stored) w =
      elim (Bool-cases (digest state == digest stored.value)) [
        | inl e ↦
            rw (verified laws prompt codec outside app digest encode state stored.value w, e)
              (exchange_and_answer-Responds code stored w)
        | inr e ↦
            rw (verified laws prompt codec outside app digest encode state stored.value w, e)
              (return-Run _ _ _ _ w (inr (inr (inr (inl refl)))))
      ]

  thrown_by :
      {A : Type 0} (r : Result A) (w : World R)
      → r ≢ hangs
      → Run (λ _ _. Unit {0}) (λ m _. r ≡ thrown m) (λ _. ⊥) (r, w)
  unfolding Run
  thrown_by (ok a) w h = tt
  thrown_by (thrown m) w h = refl
  thrown_by hangs w h = h refl

  pub get_and_delete_state-Settled :
      (state : String) (w : World R)
      → Run
          (λ _ _. Unit {0})
          (λ m _. (R.getdel (state_key state) w.now w.redis).0 ≡ thrown m)
          (λ _. ⊥)
          (get_and_delete_state codec outside state w)
  unfolding get_and_delete_state command
  get_and_delete_state-Settled state w =
      Run-bind (λ _ _. Unit {0}) _ _ _ _ _ _
        (thrown_by (R.getdel (state_key state) w.now w.redis).0 _ (prompt.getdel _ _ _))
        (λ value v _. return-Run _ _ _ (found_state value) v tt)

  responded :
      (query : CallbackQuery) (w₀ : World R) (p : Result HttpResponse × World R)
      → Responds (200 ∷ 302 ∷ 400 ∷ 403 ∷ 500 ∷ []) p
      → CallbackResponds query w₀ p
  responded query w₀ p h =
      Run-mono _ _ _ _ _ _ p.0 p.1 h (λ a v k. k) (λ m v k. absurd k) (λ v k. k)

  with_state-Responds :
      (query : CallbackQuery) (code : String) (o : Option String) (w : World R)
      → truthy_text query.state ≡ o
      → CallbackResponds query w (with_state codec outside app digest encode code o w)
  unfolding with_state
  with_state-Responds query code none w e =
      responded query w _ (return-Run _ _ _ _ w (inr (inr (inl refl))))
  with_state-Responds query code (some state) w e =
      Run-bind (λ _ _. Unit {0}) _ _ _ _ _ _
        (Run-mono _ _ _ _ _ _ _ _ (get_and_delete_state-Settled state w) (λ o v _. tt)
          (λ m v k. (state, e, k)) (λ v k. k))
        (λ o v _. responded query w _ (verify_and_exchange-Responds code state o v))

  with_code-Responds :
      (query : CallbackQuery) (o : Option String) (w : World R)
      → CallbackResponds query w
          (with_code codec outside app digest encode o (truthy_text query.state) w)
  unfolding with_code
  with_code-Responds query none w =
      responded query w _ (return-Run _ _ _ _ w (inr (inr (inl refl))))
  with_code-Responds query (some code) w = with_state-Responds query code _ w refl

  pub callback-Responds :
      (query : CallbackQuery) (w : World R)
      → CallbackResponds query w (callback codec outside app digest encode query w)
  unfolding callback
  callback-Responds query w = elim (Bool-cases (is_denied query.error)) [
    | inl e ↦ rw e (responded query w _ (return-Run _ _ _ _ w (inr (inr (inl refl)))))
    | inr e ↦ rw e (with_code-Responds query (truthy_text query.auth_code) w)
  ]

  pub begin-Responds :
      (w : World R) → Responds (302 ∷ 500 ∷ []) (begin codec outside app digest encode w)
  unfolding begin generate_state_token
  begin-Responds w =
      Run-recover _ _ (λ _ _. Unit {0}) _ _ _ _
        (Run-bind (λ _ _. Unit {0}) _ _ _ _ _ _
          (store_state-Settled prompt codec outside (outside.random w.randoms) _)
          (λ a v _. return-Run _ _ _ _ v (inl refl)))
        (λ m v _. return-Run _ _ _ _ v (inr (inl refl)))

  pub status-Responds :
      (w : World R) → Responds (200 ∷ 500 ∷ []) (status codec outside app digest encode w)
  unfolding status
  status-Responds w =
      answered prompt codec outside (200 ∷ 500 ∷ []) (list_active_advertiser_ids codec outside)
        status_answer (λ m. failure 500 "Failed to fetch authorized advertisers") w
        (list_active-Settled prompt codec outside w) (λ ids. inl refl) (λ m. inr (inl refl))

  pub refresh_route-Responds :
      (id : String) (w : World R)
      → Responds (200 ∷ 400 ∷ []) (refresh_route codec outside app digest encode id w)
  unfolding refresh_route
  refresh_route-Responds id w =
      answered prompt codec outside (200 ∷ 400 ∷ []) (refresh_access_token codec outside app id)
        (refreshed_answer id) (failure 400) w
        (Run-mono _ _ _ _ _ _ _ _
          (refresh_access_token-Run prompt codec outside app laws id w w (refl, refl, refl))
          (λ a v _. tt) (λ m v _. tt) (λ v h. h))
        (λ t. inl refl) (λ m. inr (inl refl))

  pub revoke_route-Responds :
      (id : String) (w : World R)
      → Responds (200 ∷ 500 ∷ []) (revoke_route codec outside app digest encode id w)
  unfolding revoke_route
  revoke_route-Responds id w =
      answered prompt codec outside (200 ∷ 500 ∷ []) (revoke codec outside id)
        (λ _. revoked_answer id) (λ m. failure 500 "Revocation failed") w
        (revoke-Settled prompt codec outside id w) (λ _. inl refl) (λ m. inr (inl refl))
