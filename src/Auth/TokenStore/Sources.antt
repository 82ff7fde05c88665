-- ===== src/Auth/TokenStore/Sources.antt =====
-- Where an active token comes from.
use salesforce_tiktok_crm.Base.{
  ℕ, String, ◌≡◌, refl, sym, Option, none, some, Bool-cases, inl, inr, ◌⊎◌, ltb, leb,
}
use salesforce_tiktok_crm.Exec.{Result, ok, thrown, hangs}
use salesforce_tiktok_crm.Exec.Rules.{
  Run, Run-bind, Run-bind-answer, Run-recover, Run-and, Run-mono,
}
use salesforce_tiktok_crm.Redis.{Redis, RedisLaws}
use salesforce_tiktok_crm.Types.Auth.{time_of, StoredToken, ActiveToken}
use salesforce_tiktok_crm.World.{Outside, World}
use salesforce_tiktok_crm.World.Running.{return-Run, query-Run}
use salesforce_tiktok_crm.World.Settled.{AllResponsive}
use salesforce_tiktok_crm.Auth.TokenStore.Effects.{get_from_cache-Holds}
use salesforce_tiktok_crm.Auth.TokenTable.{find_token, unexpired, active_of, select_active}
use salesforce_tiktok_crm.Auth.TokenStore.{
  TokenCodec, token_key, parsed, check_expiry, read_cached, get_from_cache, rewarm, from_table,
  from_cache_or_table, get_active_token,
}

abbrev pub OnSome : {A : Type 0} → (A → Type 0) → Option A → Type 0
OnSome P none = Unit
OnSome P (some a) = P a

unexpired-found : (now : ℕ) (o : Option StoredToken) → OnSome (λ t. o ≡ some t) (unexpired now o)
unfolding unexpired
unexpired-found now none = tt
unexpired-found now (some t) = elim (Bool-cases (ltb now t.refresh_token_expires_at)) [
  | inl e ↦ rw e refl
  | inr e ↦ rw e tt
]

module _ {R : Redis} where
  -- where it returns, P holds of what it returns
  abbrev pub Answers : {A : Type 0} → (A → Type 0) → Result A × World R → Type 0
  Answers P p = Run (λ a _. P a) (λ _ _. Unit {0}) (λ _. Unit {0}) p

  pub any-Answers : {A : Type 0} (r : Result A) (w : World R) → Answers (λ _. Unit {0}) (r, w)
  unfolding Run
  any-Answers (ok a) w = tt
  any-Answers (thrown m) w = tt
  any-Answers hangs w = tt

module _ {R : Redis} (laws : RedisLaws R) (codec : TokenCodec) (outside : Outside) where
  parsed-Answers :
      (o : Option ActiveToken) (w : World R) → Answers (λ t. o ≡ some t) (parsed codec outside o w)
  unfolding Run
  parsed-Answers none w = tt
  parsed-Answers (some t) w = refl

  check_expiry-Answers :
      (P : ActiveToken → Type 0) (id : String) (t : ActiveToken) (w : World R)
      → P t
      → Answers (OnSome P) (check_expiry codec outside id t w)
  unfolding check_expiry
  check_expiry-Answers P id t w p = elim (Bool-cases (leb (time_of t.expires_at) w.now)) [
    | inl e ↦ rw e (
        Run-bind (λ _ _. Unit {0}) _ _ _ _ _ _
          (any-Answers (R.del (token_key id) w.now w.redis).0 _)
          (λ _ w' _. return-Run _ _ _ none w' tt))
    | inr e ↦ rw e (return-Run _ _ _ (some t) w p)
  ]

  -- the value that Redis holds for the advertiser, parsed
  abbrev pub FromCache : String → World R → ActiveToken → Type 0
  FromCache id w a =
      (s : String) × (R.value w.redis w.now (token_key id) ≡ some s) × (codec.parse s ≡ some a)

  -- the advertiser's row
  abbrev pub FromRow : String → World R → ActiveToken → Type 0
  FromRow id w a = (t : StoredToken) × (find_token id w.tables.tokens ≡ some t) × (active_of t ≡ a)

  read_cached-Answers :
      (id : String) (o : Option String) (w₀ w : World R)
      → R.value w₀.redis w₀.now (token_key id) ≡ o
      → Answers (OnSome (FromCache id w₀)) (read_cached codec outside id o w)
  unfolding read_cached
  read_cached-Answers id none w₀ w h = return-Run _ _ _ none w tt
  read_cached-Answers id (some String.[]) w₀ w h = return-Run _ _ _ none w tt
  read_cached-Answers id (some (String.◌∷◌ c s)) w₀ w h =
      Run-bind (λ t _. codec.parse (String.◌∷◌ c s) ≡ some t) _ _ _ _ _ _
        (parsed-Answers (codec.parse (String.◌∷◌ c s)) w)
        (λ t w' e. check_expiry-Answers (FromCache id w₀) id t w' (String.◌∷◌ c s, h, e))

  get_from_cache-Answers :
      (id : String) (w : World R)
      → Answers (OnSome (FromCache id w)) (get_from_cache codec outside id w)
  unfolding get_from_cache
  get_from_cache-Answers id w =
      Run-recover _ _ (λ _ _. Unit {0}) _ _ _ _
        (Run-bind-answer (λ _ _. Unit {0}) _ _ _ _ _ _
          (any-Answers (R.get (token_key id) w.now w.redis).0 _)
          (λ raw e _.
            read_cached-Answers id raw w _
              (sym (laws.get_answer (token_key id) w.now w.redis raw e))))
        (λ m w' _. return-Run _ _ _ none w' tt)

  abbrev pub Source : String → World R → ActiveToken → Type 0
  Source id w a = FromCache id w a ⊎ FromRow id w a

  from_table-Answers :
      (id : String) (o : Option StoredToken) (w₀ w : World R)
      → OnSome (λ t. find_token id w₀.tables.tokens ≡ some t) o
      → Answers (OnSome (Source id w₀)) (from_table codec outside o w)
  unfolding from_table
  from_table-Answers id none w₀ w found = return-Run _ _ _ none w tt
  from_table-Answers id (some t) w₀ w found =
      Run-bind (λ _ _. Unit {0}) _ _ _ _ _ _ (any-Answers (rewarm codec outside t w).0 _)
        (λ _ w' _. return-Run _ _ _ (some (active_of t)) w' (inr (t, found, refl)))

  from_cache_or_table-Answers :
      (id : String) (o : Option ActiveToken) (w₀ w : World R)
      → w.tables ≡ w₀.tables
      → OnSome (FromCache id w₀) o
      → Answers (OnSome (Source id w₀)) (from_cache_or_table codec outside id o w)
  unfolding from_cache_or_table
  from_cache_or_table-Answers id (some a) w₀ w same s = return-Run _ _ _ (some a) w (inl s)
  from_cache_or_table-Answers id none w₀ w same s =
      Run-bind (λ o _. OnSome (λ t. find_token id w₀.tables.tokens ≡ some t) o) _ _ _ _ _ _
        (query-Run _ _ _ outside (select_active id w.now) w
          (rw same (unexpired-found w.now (find_token id w₀.tables.tokens))) (λ m. tt) (λ m. tt))
        (λ o w' k. from_table-Answers id o w₀ w' k)

  pub get_active_token-Answers :
      (prompt : AllResponsive R) (id : String) (w : World R)
      → Answers (OnSome (Source id w)) (get_active_token codec outside id w)
  unfolding get_active_token
  get_active_token-Answers prompt id w =
      Run-bind (λ o v. OnSome (FromCache id w) o × (v.tables ≡ w.tables)) _ _ _ _ _ _
        (Run-mono _ _ _ _ _ _ _ _
          (Run-and _ _ _ _ _ _ _ _ (get_from_cache-Answers id w)
            (get_from_cache-Holds prompt codec outside (λ t c n. t ≡ w.tables) id w refl))
          (λ o v k. k) (λ m v k. tt) (λ v k. tt))
        (λ o v k. from_cache_or_table-Answers id o w v k.1 k.0)
