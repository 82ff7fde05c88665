-- ===== src/Auth/Routes/Forms.antt =====
-- The callback of the OAuth routes for any query, also one whose state is no text.
use salesforce_tiktok_crm.Base.{
  String, ◌≡◌, refl, Option, none, some, [], ◌∷◌, Bool-cases, inl, inr,
}
use salesforce_tiktok_crm.Text.{truthy_text}
use salesforce_tiktok_crm.Config.{AppCredentials}
use salesforce_tiktok_crm.Exec.{Result, thrown}
use salesforce_tiktok_crm.Exec.Rules.{Run, Run-bind}
use salesforce_tiktok_crm.Redis.{Redis, RedisLaws}
use salesforce_tiktok_crm.Http.{HttpResponse, status_code}
use salesforce_tiktok_crm.World.{Outside, World}
use salesforce_tiktok_crm.World.Running.{return-Run, throw-Run}
use salesforce_tiktok_crm.World.Settled.{AllResponsive}
use salesforce_tiktok_crm.Auth.TokenStore.{TokenCodec, FoundState, state_key}
use salesforce_tiktok_crm.Auth.Routes.{
  is_denied, QueryForm, texts, object_state, with_object_state, answer_callback, refused_object,
}
use salesforce_tiktok_crm.EventSet.Routes.Answering.{OneOf}
use salesforce_tiktok_crm.Auth.Routes.Answering.{get_and_delete_state-Settled, callback-Responds}

module _ {R : Redis} (laws : RedisLaws R) (prompt : AllResponsive R) (codec : TokenCodec)
    (outside : Outside) (app : AppCredentials) (digest encode : String → String) where
  -- Why the callback throws: Redis gave an error for the state, or the state is no text and
  -- `${state}` throws.
  abbrev pub Escapes : QueryForm → World R → String → Type 0
  Escapes (texts query) w m =
      (state : String) × (truthy_text query.state ≡ some state)
      × ((R.getdel (state_key state) w.now w.redis).0 ≡ thrown m)
  Escapes (object_state auth_code error none) w m = Unit
  Escapes (object_state auth_code error (some key)) w m =
      (R.getdel (state_key key) w.now w.redis).0 ≡ thrown m

  abbrev pub FormResponds : QueryForm → World R → Result HttpResponse × World R → Type 0
  FormResponds form w₀ p =
      Run (λ a _. OneOf (200 ∷ 302 ∷ 400 ∷ 403 ∷ 500 ∷ []) (status_code a))
        (λ m _. Escapes form w₀ m) (λ _. ⊥) p

  refused_object-status :
      (o : Option FoundState)
      → OneOf (200 ∷ 302 ∷ 400 ∷ 403 ∷ 500 ∷ []) (status_code (refused_object o))
  refused_object-status none = inr (inr (inl refl))
  refused_object-status (some stored) = inr (inr (inr (inl refl)))

  with_object_state-Responds :
      (auth_code error shown code : Option String) (w : World R)
      → FormResponds
          (object_state auth_code error shown)
          w
          (with_object_state codec outside app digest encode code shown w)
  unfolding with_object_state
  with_object_state-Responds auth_code error shown none w =
      return-Run _ _ _ _ w (inr (inr (inl refl)))
  with_object_state-Responds auth_code error none (some code) w = throw-Run _ _ _ _ w tt
  with_object_state-Responds auth_code error (some key) (some code) w =
      Run-bind (λ _ _. Unit {0}) _ _ _ _ _ _
        (get_and_delete_state-Settled laws prompt codec outside app digest encode key w)
        (λ o v _. return-Run _ _ _ (refused_object o) v (refused_object-status o))

  pub answer_callback-Responds :
      (form : QueryForm) (w : World R)
      → FormResponds form w (answer_callback codec outside app digest encode form w)
  unfolding answer_callback
  answer_callback-Responds (texts query) w =
      callback-Responds laws prompt codec outside app digest encode query w
  answer_callback-Responds (object_state auth_code error shown) w =
      elim (Bool-cases (is_denied error)) [
        | inl e ↦ rw e (return-Run _ _ _ _ w (inr (inr (inl refl))))
        | inr e ↦ rw e (with_object_state-Responds auth_code error shown (truthy_text auth_code) w)
      ]
