-- ===== src/Auth/TokenStore/Effects.antt =====
-- What the reads and the writes of tokens do to the tables, the calls and the time.
use salesforce_tiktok_crm.Base.{
  ℕ, String, ◌≡◌, refl, Option, none, some, List, Bool-cases, inl, inr, ltb, leb, eq_refl,
}
use salesforce_tiktok_crm.Exec.{Result, Exec, go_on}
use salesforce_tiktok_crm.Exec.Rules.{Run, Run-bind, Run-recover, Run-mono}
use salesforce_tiktok_crm.Redis.{Redis}
use salesforce_tiktok_crm.Types.Auth.{time_of, StoredToken, ActiveToken}
use salesforce_tiktok_crm.World.{ApiCall, Tables, Outside, World}
use salesforce_tiktok_crm.World.Running.{return-Run, throw-Run, query-Run, command-Run}
use salesforce_tiktok_crm.World.Settled.{AllResponsive}
use salesforce_tiktok_crm.EventLog.{new_uuid}
use salesforce_tiktok_crm.Auth.TokenTable.{
  UpsertParams, find_token, put_token, merged_token, upsert_token, active_of, row_of, select_active,
}
use salesforce_tiktok_crm.Auth.TokenStore.{
  TokenCodec, token_key, token_cache_ttl, cache_token, parsed, check_expiry, read_cached,
  get_from_cache, rewarm, from_table, from_cache_or_table, get_active_token, get_stored_token,
  upsert,
}
use salesforce_tiktok_crm.Auth.TokenStore.Lookup.{find_token-put_token}

-- the row that an upsert returns has the new access token, and is the one found after it
pub upsert_token-found :
    (row : StoredToken) (t : Tables)
    → ((upsert_token row t).0.access_token ≡ row.access_token)
      × (find_token row.advertiser_id (upsert_token row t).1.tokens ≡ some (upsert_token row t).0)
unfolding upsert_token
upsert_token-found row t = by_old (find_token row.advertiser_id t.tokens)
  where
    by_old :
        (old : Option StoredToken)
        → ((merged_token old row).access_token ≡ row.access_token)
          × (find_token row.advertiser_id (put_token (merged_token old row) t.tokens)
              ≡ some (merged_token old row))
    by_old none = (
      refl,
      rw (find_token-put_token row t.tokens row.advertiser_id, eq_refl row.advertiser_id) refl,
    )
    by_old (some old) = (
      refl,
      rw
          (
            find_token-put_token (record row { id = old.id; created_at = old.created_at }) t.tokens
                row.advertiser_id,
            eq_refl row.advertiser_id,
          )
          refl,
    )

module _ {R : Redis} (prompt : AllResponsive R) (codec : TokenCodec) (outside : Outside)
    (K : Tables → List ApiCall → ℕ → Type 0) where
  abbrev pub Holds : World R → Type 0
  Holds w = K w.tables w.calls w.now

  -- returns or throws, and keeps what holds
  abbrev pub RunHolds : {A : Type 0} → Result A × World R → Type 0
  RunHolds p = Run (λ _. Holds) (λ _. Holds) (λ _. ⊥) p

  bind-Holds :
      {A B : Type 0} (r : Result A) (rest : A → Exec (World R) B) (w : World R)
      → RunHolds (r, w)
      → ((a : A) (w' : World R) → Holds w' → RunHolds (rest a w'))
      → RunHolds (go_on r w rest)
  bind-Holds r rest w = Run-bind _ _ _ _ r rest w

  pub cache_token-Holds :
      (t : StoredToken) (w : World R) → Holds w → RunHolds (cache_token codec outside t w)
  unfolding cache_token
  cache_token-Holds t w k =
      Run-recover _ _ (λ _. Holds) _ _ _ _
        (command-Run _ _ _
          (R.set_ex (token_key t.advertiser_id) (codec.stringify (active_of t)) token_cache_ttl
            w.now)
          w (prompt.responsive.set_ex _ _ _ _ _) (λ a. k) (λ m. k))
        (λ m w' k'. return-Run _ _ _ tt w' k')

  check_expiry-Holds :
      (id : String) (t : ActiveToken) (w : World R)
      → Holds w
      → RunHolds (check_expiry codec outside id t w)
  unfolding check_expiry
  check_expiry-Holds id t w k = elim (Bool-cases (leb (time_of t.expires_at) w.now)) [
    | inl e ↦ rw e (
        bind-Holds _ _ _
          (command-Run _ _ _ (R.del (token_key id) w.now) w (prompt.del _ _ _) (λ a. k) (λ m. k))
          (λ _ w' k'. return-Run _ _ _ none w' k'))
    | inr e ↦ rw e (return-Run _ _ _ (some t) w k)
  ]

  parsed-Holds :
      (o : Option ActiveToken) (w : World R) → Holds w → RunHolds (parsed codec outside o w)
  parsed-Holds none w k = throw-Run _ _ _ "SyntaxError" w k
  parsed-Holds (some t) w k = return-Run _ _ _ t w k

  read_cached-Holds :
      (id : String) (o : Option String) (w : World R)
      → Holds w
      → RunHolds (read_cached codec outside id o w)
  unfolding read_cached
  read_cached-Holds id none w k = return-Run _ _ _ none w k
  read_cached-Holds id (some String.[]) w k = return-Run _ _ _ none w k
  read_cached-Holds id (some (String.◌∷◌ c s)) w k =
      bind-Holds _ _ _ (parsed-Holds (codec.parse (String.◌∷◌ c s)) w k)
        (λ t w' k'. check_expiry-Holds id t w' k')

  pub get_from_cache-Holds :
      (id : String) (w : World R) → Holds w → RunHolds (get_from_cache codec outside id w)
  unfolding get_from_cache
  get_from_cache-Holds id w k =
      Run-recover _ _ (λ _. Holds) _ _ _ _
        (bind-Holds _ _ _
          (command-Run _ _ _ (R.get (token_key id) w.now) w (prompt.responsive.get _ _ _) (λ a. k)
            (λ m. k))
          (λ raw w' k'. read_cached-Holds id raw w' k'))
        (λ m w' k'. return-Run _ _ _ none w' k')

  rewarm-Holds : (t : StoredToken) (w : World R) → Holds w → RunHolds (rewarm codec outside t w)
  unfolding rewarm
  rewarm-Holds t w k = elim (Bool-cases (ltb w.now t.access_token_expires_at)) [
    | inl e ↦ rw e (cache_token-Holds t w k)
    | inr e ↦ rw e (return-Run _ _ _ tt w k)
  ]

  from_table-Holds :
      (o : Option StoredToken) (w : World R) → Holds w → RunHolds (from_table codec outside o w)
  unfolding from_table
  from_table-Holds none w k = return-Run _ _ _ none w k
  from_table-Holds (some t) w k =
      bind-Holds _ _ _ (rewarm-Holds t w k) (λ _ w' k'. return-Run _ _ _ (some (active_of t)) w' k')

  from_cache_or_table-Holds :
      (id : String) (o : Option ActiveToken) (w : World R)
      → Holds w
      → RunHolds (from_cache_or_table codec outside id o w)
  unfolding from_cache_or_table
  from_cache_or_table-Holds id (some t) w k = return-Run _ _ _ (some t) w k
  from_cache_or_table-Holds id none w k =
      bind-Holds _ _ _ (query-Run _ _ _ outside (select_active id w.now) w k (λ m. k) (λ m. k))
        (λ row w' k'. from_table-Holds row w' k')

  pub get_active_token-Holds :
      (id : String) (w : World R) → Holds w → RunHolds (get_active_token codec outside id w)
  unfolding get_active_token
  get_active_token-Holds id w k =
      bind-Holds _ _ _ (get_from_cache-Holds id w k)
        (λ cached w' k'. from_cache_or_table-Holds id cached w' k')

  pub get_stored_token-Run :
      (id : String) (w : World R)
      → Holds w
      → Run
          (λ o w'. Holds w' × (o ≡ find_token id w.tables.tokens))
          (λ _. Holds)
          (λ _. ⊥)
          (get_stored_token codec outside id w)
  unfolding get_stored_token
  get_stored_token-Run id w k =
      query-Run _ _ _ outside (λ t. (find_token id t.tokens, t)) w (k, refl) (λ m. k) (λ m. k)

module _ {R : Redis} (prompt : AllResponsive R) (codec : TokenCodec) (outside : Outside)
    (C : List ApiCall → Type 0) where
  -- an upsert returned this row
  abbrev pub Saved : (id access_token : String) → StoredToken → World R → Type 0
  Saved id access_token t w =
      (C w.calls × (find_token id w.tables.tokens ≡ some t)) × (t.access_token ≡ access_token)

  pub upsert-Saved :
      (params : UpsertParams) (w : World R)
      → C w.calls
      → Run
          (Saved params.advertiser_id params.access_token)
          (λ _ w'. C w'.calls)
          (λ _. ⊥)
          (upsert codec outside params w)
  unfolding upsert new_uuid
  upsert-Saved params w c =
      let found = upsert_token-found (row_of params (outside.uuid w.uuids) w.now) w.tables in
      Run-bind (Saved params.advertiser_id params.access_token) _ _ _ _ _ _
        (query-Run _ _ _ outside (upsert_token (row_of params (outside.uuid w.uuids) w.now)) _
          ((c, found.1), found.0) (λ m. c) (λ m. c))
        (λ t w' saved.
          Run-bind (λ _. Saved params.advertiser_id params.access_token t) _ _ _ _ _ _
            (Run-mono _ _ _ _ _ _ _ _
              (cache_token-Holds prompt codec outside
                (λ tables calls now.
                  C calls × (find_token params.advertiser_id tables.tokens ≡ some t))
                t w' saved.0)
              (λ _ v k. (k, saved.1)) (λ m v k. k.0) (λ v k. k))
            (λ _ v k. return-Run _ _ _ t v k))
