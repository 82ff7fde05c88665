-- ===== src/EventSet/Storage/RoundTrip.antt =====
-- What is stored is what is resolved.
use salesforce_tiktok_crm.Base.{
  ℕ, suc, ◌+◌, ◌*◌, ◌≤◌, ltb, String, ◌≡◌, ◌≢◌, refl, ◌∙◌, Option, none, some, List, [], ◌∷◌, ◌==◌,
  eq_iff, eq_refl, arith, if◌then◌else◌, ◌⊎◌, inl, inr, Bool-cases,
}
use salesforce_tiktok_crm.Text.{non_empty}
use salesforce_tiktok_crm.Config.{Env}
use salesforce_tiktok_crm.Types.EventSets.{CrmEventSet}
use salesforce_tiktok_crm.Exec.{ok, hangs}
use salesforce_tiktok_crm.Redis.{Redis, RedisLaws, lives}
use salesforce_tiktok_crm.World.{
  EventSetRow, EventSetSource, Outside, World, answered, query, command,
}
use salesforce_tiktok_crm.EventSet.{
  cache_key, cache_ttl, cached_id, find_event_set, warm_cache, resolve,
}
use salesforce_tiktok_crm.EventSet.Resolution.{first_source, resolve-order}
use salesforce_tiktok_crm.EventSet.Storage.{upsert_row, stored_row, on_sets, store}

-- the id of an advertiser's row
abbrev pub stored_id : Option EventSetRow → Option String
stored_id none = none
stored_id (some row) = some row.event_set_id

-- After an upsert an advertiser's event set is the one of the new row, if it is that advertiser's,
-- and what it was before otherwise.
pub find_event_set-upsert_row :
    (row : EventSetRow) (rows : List EventSetRow) (id : String)
    → stored_id (find_event_set id (upsert_row row rows)) ≡ (
        if row.advertiser_id == id
        then some row.event_set_id
        else stored_id (find_event_set id rows))
unfolding find_event_set upsert_row
find_event_set-upsert_row row [] id = ground arith
find_event_set-upsert_row row (r ∷ rs) id = ground (
  arith,
  find_event_set-upsert_row row rs id,
  eq_iff r.advertiser_id row.advertiser_id,
  eq_iff r.advertiser_id id,
  eq_iff row.advertiser_id id,
)

-- The table gives the id where the cache does not hold it.
first_source-stored :
    (id set : String) (cached : Option String) (row : Option EventSetRow) (fallback : Option String)
    → non_empty set ≡ some set
    → (cached ≡ some set) ⊎ (cached ≡ none)
    → stored_id row ≡ some set
    → first_source id (cached_id cached) row fallback ≡ ok set
first_source-stored id set cached row fallback some_set (inl hit) stored = rw (hit, some_set) refl
first_source-stored id set cached none fallback some_set (inr miss) stored = cc
first_source-stored id set cached (some row) fallback some_set (inr miss) stored =
    rw miss (ground (arith, stored))

lives-either :
    (set : String) (now t : ℕ)
    → (lives set cache_ttl now t ≡ some set) ⊎ (lives set cache_ttl now t ≡ none)
lives-either set now t = elim (Bool-cases (ltb t (now + 1000 * cache_ttl))) [
  | inl e ↦ inl (rw e refl)
  | inr e ↦ inr (rw e refl)
]

module _ {R : Redis} (laws : RedisLaws R) (outside : Outside) (env : Env) where
  -- the tables and the connection after a `store` that Postgres and Redis answer
  abbrev after_store : String → CrmEventSet → EventSetSource → World R → World R
  after_store id event_set source w = record w {
    tables = (on_sets (upsert_row (stored_row id event_set source w.now)) w.tables).1;
    statements = suc w.statements;
    redis = (R.set_ex (cache_key id) event_set.event_set_id cache_ttl w.now w.redis).1;
  }

  store-after :
      (id : String) (event_set : CrmEventSet) (source : EventSetSource) (w : World R)
      → outside.statement w.statements ≡ answered
      → (R.set_ex (cache_key id) event_set.event_set_id cache_ttl w.now w.redis).0 ≡ ok tt
      → store outside env id event_set source w ≡ (ok tt, after_store id event_set source w)
  unfolding store warm_cache query command
  store-after id event_set source w carried_out written = rw (carried_out, written) refl

  -- Where Postgres and Redis answer it, `store` succeeds, and the advertiser's row holds the id that
  -- was stored. A `resolve` at any later time, with the connection and the tables as `store` left
  -- them, returns that id, if it is not empty: from the cache or, once the entry has expired, from the
  -- table. Redis answers its read and does not hang on its write, and Postgres answers its statement.
  pub resolve-store :
      (id : String) (event_set : CrmEventSet) (source : EventSetSource) (w : World R) (later : ℕ)
      (cached : Option String)
      → non_empty event_set.event_set_id ≡ some event_set.event_set_id
      → outside.statement w.statements ≡ answered
      → (R.set_ex (cache_key id) event_set.event_set_id cache_ttl w.now w.redis).0 ≡ ok tt
      → w.now ≤ later
      → (R.get
          (cache_key id)
          later
          (R.set_ex (cache_key id) event_set.event_set_id cache_ttl w.now w.redis).1).0
        ≡ ok cached
      → ((set : String) (now : ℕ) (c : R.Conn)
          → (R.set_ex (cache_key id) set cache_ttl now c).0 ≢ hangs)
      → outside.statement (suc w.statements) ≡ answered
      → let (result, stored) = store outside env id event_set source w in
        (result ≡ ok tt)
        × (stored_id (find_event_set id stored.tables.event_sets) ≡ some event_set.event_set_id)
        × ((resolve outside env id (record stored { now = later })).0 ≡ ok event_set.event_set_id)
  resolve-store id event_set source w later cached some_id carried_out written after read settles
        answered_later =
      let set = event_set.event_set_id in
      let value : cached ≡ lives set cache_ttl w.now later =
        laws.get_answer _ _ _ cached read
        ∙ laws.set_ex_value (cache_key id) set cache_ttl w.now w.redis later (cache_key id) written
            after
        ∙ rw (eq_refl (cache_key id)) refl in
      let row : stored_id (
            find_event_set id
              (upsert_row (stored_row id event_set source w.now) w.tables.event_sets))
          ≡ some set =
        find_event_set-upsert_row (stored_row id event_set source w.now) w.tables.event_sets id
        ∙ rw (eq_refl id) refl in
      let source_of : (cached ≡ some set) ⊎ (cached ≡ none) =
        rw value (lives-either set w.now later) in
      let world = after_store id event_set source w in
      let found : (resolve outside env id (record world { now = later })).0 ≡ ok set =
        resolve-order outside env id (record world { now = later }) cached read settles
          answered_later
        ∙ first_source-stored id set cached _ _ some_id source_of row in
      rw (store-after id event_set source w carried_out written) (refl, row, found)
