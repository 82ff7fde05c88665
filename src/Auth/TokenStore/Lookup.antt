-- ===== src/Auth/TokenStore/Lookup.antt =====
-- Looking a token up, in the cache and in the table.
use salesforce_tiktok_crm.Base.{
  suc, ◌<◌, String, false, ◌≡◌, ◌≢◌, refl, none, some, List, [], ◌∷◌, ◌==◌, eq_iff, leb, ltb, arith,
  Bool-cases, inl, inr, if◌then◌else◌,
}
use salesforce_tiktok_crm.Exec.{Result, ok, thrown, hangs, recover, return}
use salesforce_tiktok_crm.Redis.{Redis}
use salesforce_tiktok_crm.Types.Auth.{time_of, StoredToken, ActiveToken}
use salesforce_tiktok_crm.World.{Outside, World, answered}
use salesforce_tiktok_crm.World.Settled.{Responsive}
use salesforce_tiktok_crm.Auth.TokenTable.{
  UpsertParams, find_token, put_token, upsert_token, unexpired, remove_token, merged_token,
  active_of, row_of,
}
use salesforce_tiktok_crm.Auth.TokenStore.{
  TokenCodec, token_key, token_cache_ttl, cache_token, check_expiry, read_cached, get_from_cache,
  rewarm, from_table, from_cache_or_table, upsert, get_active_token, revoke,
}

-- an upsert sets the row of its advertiser, and no other
pub find_token-put_token :
    (row : StoredToken) (rows : List StoredToken) (id : String)
    → find_token id (put_token row rows)
      ≡ (if row.advertiser_id == id then some row else find_token id rows)
unfolding find_token put_token
find_token-put_token row [] id = ground arith
find_token-put_token row (r ∷ rs) id = ground (
  arith,
  find_token-put_token row rs id,
  eq_iff r.advertiser_id row.advertiser_id,
  eq_iff r.advertiser_id id,
  eq_iff row.advertiser_id id,
)

pub find_token-remove_token :
    (id : String) (rows : List StoredToken) → find_token id (remove_token id rows) ≡ none
unfolding find_token remove_token
find_token-remove_token id [] = refl
find_token-remove_token id (r ∷ rs) = ground (arith, find_token-remove_token id rs)

module _ {R : Redis} (codec : TokenCodec) (outside : Outside) where
  check_expiry-valid :
      (id : String) (t : ActiveToken) (w : World R)
      → w.now < time_of t.expires_at
      → check_expiry codec outside id t w ≡ (ok (some t), w)
  unfolding check_expiry
  check_expiry-valid id t w h =
      let e : leb (time_of t.expires_at) w.now ≡ false = ground arith in rw e refl

  pub read_cached-valid :
      (id s : String) (t : ActiveToken) (w : World R)
      → s ≢ ""
      → codec.parse s ≡ some t
      → w.now < time_of t.expires_at
      → read_cached codec outside id (some s) w ≡ (ok (some t), w)
  unfolding read_cached
  read_cached-valid id String.[] t w n h lt = absurd (n refl)
  read_cached-valid id (String.◌∷◌ c s) t w n h lt = rw h (check_expiry-valid id t w lt)

  pub get_from_cache-hit :
      (id s : String) (t : ActiveToken) (w : World R)
      → (R.get (token_key id) w.now w.redis).0 ≡ ok (some s)
      → s ≢ ""
      → codec.parse s ≡ some t
      → w.now < time_of t.expires_at
      → (get_from_cache codec outside id w).0 ≡ ok (some t)
  unfolding get_from_cache
  get_from_cache-hit id s t w h n e lt =
      rw
        (
          h,
          read_cached-valid id s t (record w { redis = (R.get (token_key id) w.now w.redis).1 }) n e
              lt,
        )
        refl

  pub get_from_cache-miss :
      (id : String) (w : World R)
      → (R.get (token_key id) w.now w.redis).0 ≡ ok none
      → get_from_cache codec outside id w
        ≡ (ok none, record w { redis = (R.get (token_key id) w.now w.redis).1 })
  unfolding get_from_cache read_cached
  get_from_cache-miss id w h = rw h refl

  -- the command that caches a token
  abbrev pub cached_write : StoredToken → World R → Result (Unit {0}) × R.Conn
  cached_write t w =
      R.set_ex (token_key t.advertiser_id) (codec.stringify (active_of t)) token_cache_ttl w.now
        w.redis

  pub cache_token-tt :
      (t : StoredToken) (w : World R)
      → (cached_write t w).0 ≢ hangs
      → cache_token codec outside t w ≡ (ok tt, record w { redis = (cached_write t w).1 })
  unfolding cache_token
  cache_token-tt t w settles = by_result (cached_write t w) settles
    where
      by_result :
          (p : Result (Unit {0}) × R.Conn)
          → p.0 ≢ hangs
          → recover (λ w'. (p.0, record w' { redis = p.1 })) (λ _. return tt) w
            ≡ (ok tt, record w { redis = p.1 })
      by_result (ok a, c) n = refl
      by_result (thrown m, c) n = refl
      by_result (hangs, c) n = absurd (n refl)

  pub from_table-some :
      (t : StoredToken) (w : World R)
      → (cached_write t w).0 ≢ hangs
      → (from_table codec outside (some t) w).0 ≡ ok (some (active_of t))
  unfolding from_table rewarm
  from_table-some t w settles = elim (Bool-cases (ltb w.now t.access_token_expires_at)) [
    | inl e ↦ rw (e, cache_token-tt t w settles) refl
    | inr e ↦ rw e refl
  ]

  pub get_active_token-hit :
      (id : String) (t : ActiveToken) (w : World R)
      → (get_from_cache codec outside id w).0 ≡ ok (some t)
      → (get_active_token codec outside id w).0 ≡ ok (some t)
  unfolding get_active_token from_cache_or_table
  get_active_token-hit id t w h = rw h refl

  pub get_active_token-row :
      (answers : Responsive R) (id : String) (t : StoredToken) (w : World R)
      → (R.get (token_key id) w.now w.redis).0 ≡ ok none
      → outside.statement w.statements ≡ answered
      → unexpired w.now (find_token id w.tables.tokens) ≡ some t
      → (get_active_token codec outside id w).0 ≡ ok (some (active_of t))
  unfolding get_active_token from_cache_or_table
  get_active_token-row answers id t w h carried_out row =
      rw (get_from_cache-miss id w h, carried_out, row)
        (from_table-some t _ (answers.set_ex _ _ _ _ _))

  pub get_active_token-none :
      (id : String) (w : World R)
      → (R.get (token_key id) w.now w.redis).0 ≡ ok none
      → outside.statement w.statements ≡ answered
      → unexpired w.now (find_token id w.tables.tokens) ≡ none
      → (get_active_token codec outside id w).0 ≡ ok none
  unfolding get_active_token from_cache_or_table from_table
  get_active_token-none id w h carried_out row =
      rw (get_from_cache-miss id w h, carried_out, row) refl

  -- the row that an upsert writes
  abbrev pub written_row : UpsertParams → World R → StoredToken
  written_row params w =
      let row = row_of params (outside.uuid w.uuids) w.now in
      merged_token (find_token params.advertiser_id w.tables.tokens) row

  pub upsert-stored :
      (params : UpsertParams) (w : World R)
      → outside.statement w.statements ≡ answered
      → (cached_write (written_row params w) w).0 ≡ ok tt
      → upsert codec outside params w ≡ (
        ok (written_row params w),
        record w {
          uuids = suc w.uuids;
          statements = suc w.statements;
          tables = record w.tables { tokens = put_token (written_row params w) w.tables.tokens };
          redis = (cached_write (written_row params w) w).1;
        },
      )
  unfolding upsert upsert_token cache_token
  upsert-stored params w carried_out cached = rw (carried_out, cached) refl

  pub revoke-done :
      (id : String) (w : World R)
      → outside.statement w.statements ≡ answered
      → (R.del (token_key id) w.now w.redis).0 ≡ ok tt
      → revoke codec outside id w ≡ (
        ok tt,
        record w {
          statements = suc w.statements;
          tables = record w.tables { tokens = remove_token id w.tables.tokens };
          redis = (R.del (token_key id) w.now w.redis).1;
        },
      )
  unfolding revoke
  revoke-done id w carried_out deleted = rw (carried_out, deleted) refl
