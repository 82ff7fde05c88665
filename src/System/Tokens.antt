-- ===== src/System/Tokens.antt =====
-- The token store keeps what its statements keep.
use salesforce_tiktok_crm.Base.{String, Option, none, some, map, Bool-cases, inl, inr, ltb, leb}
use salesforce_tiktok_crm.Exec.{ok, thrown}
use salesforce_tiktok_crm.Redis.{Redis}
use salesforce_tiktok_crm.Types.Auth.{time_of, StoredToken, ActiveToken}
use salesforce_tiktok_crm.World.{Outside, World}
use salesforce_tiktok_crm.World.Keeping.{
  History, At, Keeps, Keeps-run, Keeps-bind, Keeps-recover, command-Keeps, query-Keeps,
}
use salesforce_tiktok_crm.EventLog.{new_uuid}
use salesforce_tiktok_crm.Auth.TokenTable.{
  UpsertParams, find_token, upsert_token, remove_token, latest_active, active_of, row_of,
  select_active,
}
use salesforce_tiktok_crm.Auth.TokenStore.{
  TokenCodec, token_key, token_cache_ttl, state_key, oauth_state_ttl, found_state, cache_token,
  parsed, check_expiry, read_cached, get_from_cache, upsert, rewarm, from_table,
  from_cache_or_table, get_active_token, get_stored_token, list_active_advertiser_ids, revoke,
  store_state, get_and_delete_state,
}
use salesforce_tiktok_crm.System.Stable.{Stable}

module _ {R : Redis} (J : History) (stable : Stable J) (codec : TokenCodec)
    (outside : Outside) where
  cache_token-Keeps :
      (t : StoredToken) (w : World R) → At J w → Keeps J (cache_token codec outside t w)
  unfolding cache_token
  cache_token-Keeps t w i =
      Keeps-recover J _ _ _
        (command-Keeps J
          (R.set_ex (token_key t.advertiser_id) (codec.stringify (active_of t)) token_cache_ttl
            w.now)
          w i)
        (λ m v j. Keeps-run J (ok tt) v j)

  check_expiry-Keeps :
      (id : String) (t : ActiveToken) (w : World R)
      → At J w
      → Keeps J (check_expiry codec outside id t w)
  unfolding check_expiry
  check_expiry-Keeps id t w i = elim (Bool-cases (leb (time_of t.expires_at) w.now)) [
    | inl e ↦ rw e (
        Keeps-bind J _ _ _ (command-Keeps J (R.del (token_key id) w.now) w i)
          (λ _ v j. Keeps-run J (ok none) v j))
    | inr e ↦ rw e (Keeps-run J (ok (some t)) w i)
  ]

  parsed-Keeps :
      (o : Option ActiveToken) (w : World R) → At J w → Keeps J (parsed codec outside o w)
  parsed-Keeps none w i = Keeps-run J (thrown "SyntaxError") w i
  parsed-Keeps (some t) w i = Keeps-run J (ok t) w i

  read_cached-Keeps :
      (id : String) (o : Option String) (w : World R)
      → At J w
      → Keeps J (read_cached codec outside id o w)
  unfolding read_cached
  read_cached-Keeps id none w i = Keeps-run J (ok none) w i
  read_cached-Keeps id (some String.[]) w i = Keeps-run J (ok none) w i
  read_cached-Keeps id (some (String.◌∷◌ c s)) w i =
      Keeps-bind J _ _ _ (parsed-Keeps (codec.parse (String.◌∷◌ c s)) w i)
        (λ t v j. check_expiry-Keeps id t v j)

  get_from_cache-Keeps :
      (id : String) (w : World R) → At J w → Keeps J (get_from_cache codec outside id w)
  unfolding get_from_cache
  get_from_cache-Keeps id w i =
      Keeps-recover J _ _ _
        (Keeps-bind J _ _ _ (command-Keeps J (R.get (token_key id) w.now) w i)
          (λ raw v j. read_cached-Keeps id raw v j))
        (λ m v j. Keeps-run J (ok none) v j)

  rewarm-Keeps : (t : StoredToken) (w : World R) → At J w → Keeps J (rewarm codec outside t w)
  unfolding rewarm
  rewarm-Keeps t w i = elim (Bool-cases (ltb w.now t.access_token_expires_at)) [
    | inl e ↦ rw e (cache_token-Keeps t w i)
    | inr e ↦ rw e (Keeps-run J (ok tt) w i)
  ]

  from_table-Keeps :
      (o : Option StoredToken) (w : World R) → At J w → Keeps J (from_table codec outside o w)
  unfolding from_table
  from_table-Keeps none w i = Keeps-run J (ok none) w i
  from_table-Keeps (some t) w i =
      Keeps-bind J _ _ _ (rewarm-Keeps t w i) (λ _ v j. Keeps-run J (ok (some (active_of t))) v j)

  from_cache_or_table-Keeps :
      (id : String) (o : Option ActiveToken) (w : World R)
      → At J w
      → Keeps J (from_cache_or_table codec outside id o w)
  unfolding from_cache_or_table
  from_cache_or_table-Keeps id (some t) w i = Keeps-run J (ok (some t)) w i
  from_cache_or_table-Keeps id none w i =
      Keeps-bind J _ _ _ (query-Keeps J outside (select_active id w.now) w i i)
        (λ row v j. from_table-Keeps row v j)

  pub get_active_token-Keeps :
      (id : String) (w : World R) → At J w → Keeps J (get_active_token codec outside id w)
  unfolding get_active_token
  get_active_token-Keeps id w i =
      Keeps-bind J _ _ _ (get_from_cache-Keeps id w i)
        (λ cached v j. from_cache_or_table-Keeps id cached v j)

  pub get_stored_token-Keeps :
      (id : String) (w : World R) → At J w → Keeps J (get_stored_token codec outside id w)
  unfolding get_stored_token
  get_stored_token-Keeps id w i = query-Keeps J outside (λ t. (find_token id t.tokens, t)) w i i

  pub list_active_advertiser_ids-Keeps :
      (w : World R) → At J w → Keeps J (list_active_advertiser_ids codec outside w)
  unfolding list_active_advertiser_ids
  list_active_advertiser_ids-Keeps w i =
      query-Keeps J outside
        (λ t. (map (λ (row : StoredToken). row.advertiser_id) (latest_active w.now t.tokens), t)) w
        i i

  pub upsert-Keeps :
      (params : UpsertParams) (w : World R) → At J w → Keeps J (upsert codec outside params w)
  unfolding upsert new_uuid
  upsert-Keeps params w i =
      let row = row_of params (outside.uuid w.uuids) w.now in
      Keeps-bind J _ _ _
        (query-Keeps J outside (upsert_token row) _ i
          (stable.upsert_token row w.tables w.requests w.jobs i))
        (λ t v j.
          Keeps-bind J _ _ _ (cache_token-Keeps t v j) (λ _ v' j'. Keeps-run J (ok t) v' j'))

  pub revoke-Keeps : (id : String) (w : World R) → At J w → Keeps J (revoke codec outside id w)
  unfolding revoke
  revoke-Keeps id w i =
      Keeps-bind J _ _ _
        (query-Keeps J outside (λ t. (tt, record t { tokens = remove_token id t.tokens })) w i
          (stable.remove_token id w.tables w.requests w.jobs i))
        (λ _ v j. command-Keeps J (R.del (token_key id) w.now) v j)

  pub store_state-Keeps :
      (state : String) (w : World R) → At J w → Keeps J (store_state codec outside state w)
  unfolding store_state
  store_state-Keeps state w i =
      command-Keeps J (R.set_ex (state_key state) state oauth_state_ttl w.now) w i

  pub get_and_delete_state-Keeps :
      (state : String) (w : World R) → At J w → Keeps J (get_and_delete_state codec outside state w)
  unfolding get_and_delete_state
  get_and_delete_state-Keeps state w i =
      Keeps-bind J _ _ _ (command-Keeps J (R.getdel (state_key state) w.now) w i)
        (λ value v j. Keeps-run J (ok (found_state value)) v j)
