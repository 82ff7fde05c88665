-- ===== src/Auth/TokenStore/RoundTrip.antt =====
-- What is stored of a token, or revoked, is what is found.
use salesforce_tiktok_crm.Base.{
  ℕ, suc, ◌+◌, ◌*◌, ◌≤◌, ◌<◌, if◌then◌else◌, String, true, ◌≡◌, refl, ◌∙◌, ap, Option, none, some,
  List, ltb, eq_refl, arith, Bool-cases, inl, inr,
}
use salesforce_tiktok_crm.Exec.{ok}
use salesforce_tiktok_crm.Redis.{Redis, RedisLaws, lives}
use salesforce_tiktok_crm.Types.Auth.{StoredToken, ActiveToken}
use salesforce_tiktok_crm.World.{Outside, World, answered}
use salesforce_tiktok_crm.World.Settled.{Responsive}
use salesforce_tiktok_crm.Auth.TokenTable.{
  UpsertParams, find_token, put_token, unexpired, merged_token, active_of, row_of,
}
use salesforce_tiktok_crm.Auth.TokenStore.{
  TokenCodec, CodecLaws, revived, token_key, token_cache_ttl, upsert, get_active_token, revoke,
}
use salesforce_tiktok_crm.Auth.TokenStore.States.{at}
use salesforce_tiktok_crm.Auth.TokenStore.Lookup.{
  find_token-put_token, find_token-remove_token, get_from_cache-hit, cached_write,
  get_active_token-hit, get_active_token-row, get_active_token-none, written_row, upsert-stored,
  revoke-done,
}

module _ {R : Redis} (codec : TokenCodec) (outside : Outside) (laws : RedisLaws R)
    (codes : CodecLaws codec) (answers : Responsive R) where
  -- the token, as the cache gives it while the entry lives, and then as the table does
  abbrev pub seen_token : StoredToken → (stored_at now : ℕ) → ActiveToken
  seen_token t stored_at now =
      if ltb now (stored_at + 1000 * token_cache_ttl) then revived (active_of t) else active_of t

  found_row :
      (id : String) (t : StoredToken) (now : ℕ) (rows : List StoredToken)
      → find_token id rows ≡ some t
      → now < t.refresh_token_expires_at
      → unexpired now (find_token id rows) ≡ some t
  unfolding unexpired
  found_row id t now rows h lt =
      let e : ltb now t.refresh_token_expires_at ≡ true = ground arith in rw (h, e) refl

  cached_token :
      (t : StoredToken) (w v : World R) (cached : Option String)
      → w.now ≤ v.now
      → (cached_write codec outside t w).0 ≡ ok tt
      → v.redis ≡ (cached_write codec outside t w).1
      → (R.get (token_key t.advertiser_id) v.now v.redis).0 ≡ ok cached
      → cached ≡ lives (codec.stringify (active_of t)) token_cache_ttl w.now v.now
  cached_token t w v cached after stored kept read =
      laws.get_answer _ _ _ cached read
      ∙ ap (λ c. R.value c v.now (token_key t.advertiser_id)) kept
      ∙ laws.set_ex_value _ _ _ _ _ v.now (token_key t.advertiser_id) stored after
      ∙ rw (eq_refl (token_key t.advertiser_id)) refl

  -- in a world where a row is in the table and was cached
  get_active_token-written :
      (t : StoredToken) (w v : World R) (cached : Option String)
      → w.now ≤ v.now
      → v.now < t.access_token_expires_at
      → v.now < t.refresh_token_expires_at
      → (cached_write codec outside t w).0 ≡ ok tt
      → v.redis ≡ (cached_write codec outside t w).1
      → outside.statement v.statements ≡ answered
      → find_token t.advertiser_id v.tables.tokens ≡ some t
      → (R.get (token_key t.advertiser_id) v.now v.redis).0 ≡ ok cached
      → (get_active_token codec outside t.advertiser_id v).0 ≡ ok (some (seen_token t w.now v.now))
  get_active_token-written t w v cached after access refresh stored kept carried_out row read =
      let there = cached_token t w v cached after stored kept read in
      elim (Bool-cases (ltb v.now (w.now + 1000 * token_cache_ttl))) [
        | inl e ↦
            get_active_token-hit codec outside t.advertiser_id (revived (active_of t)) v (
              get_from_cache-hit codec outside t.advertiser_id (codec.stringify (active_of t))
                (revived (active_of t)) v (read ∙ ap ok (there ∙ rw e refl))
                (codes.not_empty (active_of t)) (codes.parse-stringify (active_of t)) access)
            ∙ rw e refl
        | inr e ↦
            get_active_token-row codec outside answers t.advertiser_id t v
              (read ∙ ap ok (there ∙ rw e refl)) carried_out
              (found_row t.advertiser_id t v.now v.tables.tokens row refresh)
            ∙ rw e refl
      ]

  own_row :
      (t : StoredToken) (rows : List StoredToken)
      → find_token t.advertiser_id (put_token t rows) ≡ some t
  own_row t rows = rw (find_token-put_token t rows t.advertiser_id, eq_refl t.advertiser_id) refl

  -- the same for a row that was merged with the one that was there
  get_active_token-merged :
      (old : Option StoredToken) (t : StoredToken) (w v : World R) (rows : List StoredToken)
      (cached : Option String)
      → w.now ≤ v.now
      → v.now < t.access_token_expires_at
      → v.now < t.refresh_token_expires_at
      → (cached_write codec outside (merged_token old t) w).0 ≡ ok tt
      → v.redis ≡ (cached_write codec outside (merged_token old t) w).1
      → outside.statement v.statements ≡ answered
      → v.tables.tokens ≡ put_token (merged_token old t) rows
      → (R.get (token_key t.advertiser_id) v.now v.redis).0 ≡ ok cached
      → (get_active_token codec outside t.advertiser_id v).0 ≡ ok (some (seen_token t w.now v.now))
  get_active_token-merged none t w v rows cached after access refresh stored kept carried_out put
        read =
      get_active_token-written t w v cached after access refresh stored kept carried_out
        (ap (find_token t.advertiser_id) put ∙ own_row t rows) read
  get_active_token-merged (some old) t w v rows cached after access refresh stored kept carried_out
        put read =
      let merged : StoredToken = record t { id = old.id; created_at = old.created_at } in
      get_active_token-written merged w v cached after access refresh stored kept carried_out
        (ap (find_token t.advertiser_id) put ∙ own_row merged rows) read

  -- After an upsert that Postgres and Redis carry out, the advertiser's active token is the one
  -- that was stored, as long as neither of its two tokens has expired: from the cache, with the text
  -- of its date in the date's place, while the entry lives, and from the table, with the date, after
  -- that. Redis answers the read, and Postgres answers where it is asked.
  pub get_active_token-upsert :
      (params : UpsertParams) (later : ℕ) (w : World R) (cached : Option String)
      → w.now ≤ later
      → later < params.access_token_expires_at
      → later < params.refresh_token_expires_at
      → outside.statement w.statements ≡ answered
      → outside.statement (suc w.statements) ≡ answered
      → (cached_write codec outside (written_row codec outside params w) w).0 ≡ ok tt
      → (R.get
          (token_key params.advertiser_id)
          later
          (cached_write codec outside (written_row codec outside params w) w).1).0
        ≡ ok cached
      → (get_active_token codec outside params.advertiser_id
          (at later (upsert codec outside params w).1)).0
        ≡ ok (some (seen_token (row_of params (outside.uuid w.uuids) w.now) w.now later))
  get_active_token-upsert params later w cached after access refresh first second stored read =
      rw (upsert-stored codec outside params w first stored) (
        get_active_token-merged (find_token params.advertiser_id w.tables.tokens)
          (row_of params (outside.uuid w.uuids) w.now) w _ w.tables.tokens cached after access
          refresh stored refl second refl read)

  -- After a revocation that Postgres and Redis carry out, the advertiser has no active token, at
  -- any time, where Redis answers the read and Postgres answers.
  pub get_active_token-revoke :
      (id : String) (later : ℕ) (w : World R) (cached : Option String)
      → outside.statement w.statements ≡ answered
      → outside.statement (suc w.statements) ≡ answered
      → (R.del (token_key id) w.now w.redis).0 ≡ ok tt
      → (R.get (token_key id) later (R.del (token_key id) w.now w.redis).1).0 ≡ ok cached
      → (get_active_token codec outside id (at later (revoke codec outside id w).1)).0 ≡ ok none
  get_active_token-revoke id later w cached first second deleted read =
      let gone : cached ≡ none =
        laws.get_answer _ _ _ cached read
        ∙ laws.del_value (token_key id) w.now w.redis later (token_key id) deleted
        ∙ rw (eq_refl (token_key id)) refl in
      rw (revoke-done codec outside id w first deleted) (
        get_active_token-none codec outside id _ (read ∙ ap ok gone) second (
          ap (unexpired later) (find_token-remove_token id w.tables.tokens)
          ∙ unfold unexpired in refl))
