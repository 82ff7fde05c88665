-- ===== src/Auth/Routes/Forgery.antt =====
-- The state parameter guards the callback against forged requests.
use salesforce_tiktok_crm.Base.{
  String, ◌≡◌, refl, sym, ◌∙◌, ap, Option, none, some, ◌∷◌, true, false, Bool-cases, inl, inr, ◌⊎◌,
  ◌==◌, eq_iff,
}
use salesforce_tiktok_crm.Text.{truthy_text}
use salesforce_tiktok_crm.Config.{AppCredentials}
use salesforce_tiktok_crm.Exec.{ok, return, recover, ◌>>◌}
use salesforce_tiktok_crm.Exec.Rules.{Run, Run-bind, Run-bind-answer, Run-recover, Run-mono}
use salesforce_tiktok_crm.Redis.{Redis, RedisLaws}
use salesforce_tiktok_crm.Http.{HttpResponse}
use salesforce_tiktok_crm.World.{exchange_call, Outside, World}
use salesforce_tiktok_crm.World.Running.{result-Run, return-Run}
use salesforce_tiktok_crm.World.Settled.{AllResponsive}
use salesforce_tiktok_crm.Auth.TokenStore.{
  TokenCodec, FoundState, state_key, found_state, get_and_delete_state,
}
use salesforce_tiktok_crm.Auth.OAuthClient.Exchanging.{RunIn, Exchanged, exchange_auth_code-Run}
use salesforce_tiktok_crm.Auth.OAuthClient.{verify_state}
use salesforce_tiktok_crm.Auth.Routes.{
  failure, CallbackQuery, after_exchange, is_denied, exchange_and_answer, on_verified,
  verify_and_exchange, with_state, with_code, callback,
}

abbrev value_of : Option FoundState → Option String
value_of none = none
value_of (some stored) = some stored.value

module _ {R : Redis} (laws : RedisLaws R) (prompt : AllResponsive R) (codec : TokenCodec)
    (outside : Outside) (app : AppCredentials) (digest encode : String → String) where
  exchange_and_answer-Run :
      (code : String) (stored : FoundState) (w : World R)
      → RunIn
          (Exchanged app code w.calls)
          (exchange_and_answer codec outside app digest encode code stored w)
  unfolding exchange_and_answer
  exchange_and_answer-Run code stored w =
      Run-recover _ _ (λ _. Exchanged app code w.calls) _ _ _ _
        (Run-bind (λ _. Exchanged app code w.calls) _ _ _ _ _ _
          (exchange_auth_code-Run prompt codec outside app code w)
          (λ tokens v k. return-Run _ _ _ (after_exchange stored.redirect_after tokens) v k))
        (λ m v k. return-Run _ _ _ (failure 500 "Token exchange failed") v k)

  -- No endpoint of TikTok was called and no row was changed.
  abbrev pub Untouched : World R → World R → Type 0
  Untouched w₀ w = (w.calls ≡ w₀.calls) × (w.tables ≡ w₀.tables)

  -- The query has a code and a state, Redis held the state's value when the request came, the two
  -- have one digest, and the code was exchanged.
  abbrev pub Justified : CallbackQuery → World R → World R → Type 0
  Justified query w₀ w =
      (code : String) × (state : String) × (value : String) × (truthy_text query.auth_code
        ≡ some code)
      × (truthy_text query.state ≡ some state)
      × (R.value w₀.redis w₀.now (state_key state) ≡ some value)
      × (digest state ≡ digest value)
      × Exchanged app code w₀.calls w

  abbrev pub Guarded : CallbackQuery → World R → World R → Type 0
  Guarded query w₀ w = Untouched w₀ w ⊎ Justified query w₀ w

  found_state-value :
      (o : Option String) (stored : FoundState)
      → found_state o ≡ some stored
      → o ≡ some stored.value
  found_state-value none stored h = cc
  found_state-value (some String.[]) stored h = cc
  found_state-value (some (String.◌∷◌ c s)) stored h = ap value_of h

  pub verified :
      (state value : String) (w : World R)
      → recover (verify_state digest state value >> return true) (λ _. return false) w
        ≡ (ok (digest state == digest value), w)
  unfolding verify_state
  verified state value w = elim (Bool-cases (digest state == digest value)) [
    | inl e ↦ rw e refl
    | inr e ↦ rw e refl
  ]

  untouched :
      (query : CallbackQuery) (w₀ w : World R) (answer : HttpResponse)
      → Untouched w₀ w
      → RunIn (Guarded query w₀) (return answer w)
  untouched query w₀ w answer u = return-Run _ _ _ answer w (inl u)

  verify_and_exchange-Run :
      (query : CallbackQuery) (code state : String) (o : Option FoundState) (w₀ w : World R)
      → truthy_text query.auth_code ≡ some code
      → truthy_text query.state ≡ some state
      → found_state (R.value w₀.redis w₀.now (state_key state)) ≡ o
      → Untouched w₀ w
      → RunIn
          (Guarded query w₀)
          (verify_and_exchange codec outside app digest encode code state o w)
  unfolding verify_and_exchange on_verified
  verify_and_exchange-Run query code state none w₀ w has_code has_state held u =
      untouched query w₀ w _ u
  verify_and_exchange-Run query code state (some stored) w₀ w has_code has_state held u =
      elim (Bool-cases (digest state == digest stored.value)) [
        | inl e ↦
            rw (verified state stored.value w, e)
              (Run-mono _ _ _ _ _ _ _ _ (exchange_and_answer-Run code stored w)
                (λ a v k. inr (justified e v k)) (λ m v k. inr (justified e v k)) (λ v k. k))
        | inr e ↦ rw (verified state stored.value w, e) (untouched query w₀ w _ u)
      ]
    where
      justified :
          (digest state == digest stored.value) ≡ true
          → (v : World R) → Exchanged app code w.calls v
          → Justified query w₀ v
      justified e v k = (
        code,
        state,
        stored.value,
        has_code,
        has_state,
        found_state-value _ stored held,
        (eq_iff (digest state) (digest stored.value)).0 e,
        k ∙ ap (◌∷◌ (exchange_call app.tiktok_app_id app.tiktok_app_secret code)) u.0,
      )

  get_and_delete_state-Run :
      (state : String) (w : World R)
      → Run
          (λ o v. Untouched w v × (found_state (R.value w.redis w.now (state_key state)) ≡ o))
          (λ _ v. Untouched w v)
          (λ _. ⊥)
          (get_and_delete_state codec outside state w)
  unfolding get_and_delete_state
  get_and_delete_state-Run state w =
      Run-bind-answer (λ _ v. Untouched w v) _ _ _ _ _ _
        (result-Run (λ _ v. Untouched w v) (λ _ v. Untouched w v) (λ _. ⊥)
          (R.getdel (state_key state) w.now w.redis).0 _ (prompt.getdel _ _ _) (λ a. (refl, refl))
          (λ m. (refl, refl)))
        (λ value e u.
          return-Run _ _ _ (found_state value) _
            (u, ap found_state (sym (laws.getdel_answer (state_key state) w.now w.redis value e))))

  with_state-Run :
      (query : CallbackQuery) (code : String) (w : World R)
      → truthy_text query.auth_code ≡ some code
      → (o : Option String) → truthy_text query.state ≡ o
      → RunIn (Guarded query w) (with_state codec outside app digest encode code o w)
  unfolding with_state
  with_state-Run query code w has_code none e = untouched query w w _ (refl, refl)
  with_state-Run query code w has_code (some state) e =
      Run-bind (λ o v. Untouched w v × (found_state (R.value w.redis w.now (state_key state)) ≡ o))
        _ _ _ _ _ _
        (Run-mono _ _ _ _ _ _ _ _ (get_and_delete_state-Run state w) (λ o v k. k) (λ m v k. inl k)
          (λ v k. k))
        (λ o v k. verify_and_exchange-Run query code state o w v has_code e k.1 k.0)

  with_code-Run :
      (query : CallbackQuery) (w : World R) (o : Option String)
      → truthy_text query.auth_code ≡ o
      → RunIn
          (Guarded query w)
          (with_code codec outside app digest encode o (truthy_text query.state) w)
  unfolding with_code
  with_code-Run query w none e = untouched query w w _ (refl, refl)
  with_code-Run query w (some code) e = with_state-Run query code w e _ refl

  -- Where no command of Redis hangs, the callback of a query that holds texts returns or throws,
  -- whatever Postgres and TikTok answer. It exchanges an authorization code, in the one call that
  -- it makes, only where Redis held a value for the state that came with it, of the same digest;
  -- otherwise it calls nothing and leaves the tables as they are.
  pub callback-Guarded :
      (query : CallbackQuery) (w : World R)
      → RunIn (Guarded query w) (callback codec outside app digest encode query w)
  unfolding callback
  callback-Guarded query w = elim (Bool-cases (is_denied query.error)) [
    | inl e ↦ rw e (untouched query w w _ (refl, refl))
    | inr e ↦ rw e (with_code-Run query w _ refl)
  ]
