-- ===== src/EventSet/Resolution.antt =====
-- Resolving an event set: what it leaves alone, and which source wins.
use salesforce_tiktok_crm.Base.{ℕ, String, ◌≡◌, ◌≢◌, refl, Option, none, some}
use salesforce_tiktok_crm.Config.{Env}
use salesforce_tiktok_crm.Exec.{Result, ok, thrown, hangs, return, recover, ◌>>◌}
use salesforce_tiktok_crm.Redis.{Redis}
use salesforce_tiktok_crm.World.{EventSetRow, Outside, World, answered}
use salesforce_tiktok_crm.World.Quiet.{
  Quiet, RunsQuiet, Quiet-run, Quiet-return, Quiet-bind, Quiet-recover, command-Quiet, query-Quiet,
}
use salesforce_tiktok_crm.EventSet.{
  cache_key, cache_ttl, cached_id, find_event_set, no_event_set, get_cached, warm_cache,
  env_fallback_id, from_row, from_cache, resolve,
}

-- The documented order: the cache, the table, the environment, and an error where none has one.
abbrev pub first_source :
    String → Option String → Option EventSetRow → Option String → Result String
first_source id (some cached) row fallback = ok cached
first_source id none (some row) fallback = ok row.event_set_id
first_source id none none (some fallback) = ok fallback
first_source id none none none = thrown (no_event_set id)

module _ {R : Redis} (outside : Outside) (env : Env) where
  get_cached-Quiet :
      (id : String) (w₀ w : World R) → Quiet w₀ w → RunsQuiet w₀ (get_cached outside env id w)
  unfolding get_cached
  get_cached-Quiet id w₀ w q =
      Quiet-recover _ _ w₀ _
        (Quiet-bind _ _ w₀ _ (command-Quiet (R.get (cache_key id) w.now) w₀ w q)
          (λ cached w'. Quiet-return (cached_id cached) w₀ w'))
        (λ m w'. Quiet-return none w₀ w')

  warm_cache-Quiet :
      (id set : String) (w₀ w : World R)
      → Quiet w₀ w
      → RunsQuiet w₀ (warm_cache outside env id set w)
  unfolding warm_cache
  warm_cache-Quiet id set w₀ w q =
      Quiet-recover _ _ w₀ _ (command-Quiet (R.set_ex (cache_key id) set cache_ttl w.now) w₀ w q)
        (λ m w'. Quiet-return tt w₀ w')

  env_fallback_id-Quiet :
      (id : String) (o : Option String) (w₀ w : World R)
      → Quiet w₀ w
      → RunsQuiet w₀ (env_fallback_id outside env id o w)
  unfolding env_fallback_id
  env_fallback_id-Quiet id none w₀ w q = Quiet-run w₀ w (thrown (no_event_set id)) q
  env_fallback_id-Quiet id (some String.[]) w₀ w q = Quiet-run w₀ w (thrown (no_event_set id)) q
  env_fallback_id-Quiet id (some (String.◌∷◌ c s)) w₀ w q = Quiet-return _ w₀ w q

  from_row-Quiet :
      (id : String) (o : Option EventSetRow) (w₀ w : World R)
      → Quiet w₀ w
      → RunsQuiet w₀ (from_row outside env id o w)
  unfolding from_row
  from_row-Quiet id none w₀ w q = env_fallback_id-Quiet id _ w₀ w q
  from_row-Quiet id (some row) w₀ w q =
      Quiet-bind _ _ w₀ _ (warm_cache-Quiet id _ w₀ w q)
        (λ _ w'. Quiet-return row.event_set_id w₀ w')

  from_cache-Quiet :
      (id : String) (o : Option String) (w₀ w : World R)
      → Quiet w₀ w
      → RunsQuiet w₀ (from_cache outside env id o w)
  unfolding from_cache
  from_cache-Quiet id (some set) w₀ w q = Quiet-return set w₀ w q
  from_cache-Quiet id none w₀ w q =
      Quiet-bind _ _ w₀ _
        (query-Quiet outside (λ t. (find_event_set id t.event_sets, t)) w₀ w (λ t. refl) q)
        (λ row w' q'. from_row-Quiet id row w₀ w' q')

  pub resolve-Quiet :
      (id : String) (w₀ w : World R) → Quiet w₀ w → RunsQuiet w₀ (resolve outside env id w)
  unfolding resolve
  resolve-Quiet id w₀ w q =
      Quiet-bind _ _ w₀ _ (get_cached-Quiet id w₀ w q)
        (λ cached w' q'. from_cache-Quiet id cached w₀ w' q')

  env_fallback_id-first :
      (id : String) (o : Option String) (w : World R)
      → (env_fallback_id outside env id o w).0 ≡ first_source id none none (cached_id o)
  unfolding env_fallback_id
  env_fallback_id-first id none w = refl
  env_fallback_id-first id (some String.[]) w = refl
  env_fallback_id-first id (some (String.◌∷◌ c s)) w = refl

  -- the write of the cache does not change the answer
  warm_cache-then :
      (id set : String) (w : World R)
      → (R.set_ex (cache_key id) set cache_ttl w.now w.redis).0 ≢ hangs
      → ((warm_cache outside env id set >> return set) w).0 ≡ ok set
  unfolding warm_cache
  warm_cache-then id set w settles =
      by_result (R.set_ex (cache_key id) set cache_ttl w.now w.redis) settles
    where
      by_result :
          (p : Result (Unit {0}) × R.Conn)
          → p.0 ≢ hangs
          → ((recover (λ w'. (p.0, record w' { redis = p.1 })) (λ _. return tt) >> return set) w).0
            ≡ ok set
      by_result (ok a, c) n = refl
      by_result (thrown m, c) n = refl
      by_result (hangs, c) n = absurd (n refl)

  from_row-first :
      (id : String) (o : Option EventSetRow) (w : World R)
      → ((set : String) (now : ℕ) (c : R.Conn)
          → (R.set_ex (cache_key id) set cache_ttl now c).0 ≢ hangs)
      → (from_row outside env id o w).0
        ≡ first_source id none o (cached_id env.tiktok_crm_event_set_id)
  unfolding from_row
  from_row-first id none w settles = env_fallback_id-first id env.tiktok_crm_event_set_id w
  from_row-first id (some row) w settles =
      warm_cache-then id row.event_set_id w (settles row.event_set_id w.now w.redis)

  from_cache-first :
      (id : String) (cached : Option String) (w : World R)
      → ((set : String) (now : ℕ) (c : R.Conn)
          → (R.set_ex (cache_key id) set cache_ttl now c).0 ≢ hangs)
      → outside.statement w.statements ≡ answered
      → (from_cache outside env id cached w).0
        ≡ first_source id cached
            (find_event_set id w.tables.event_sets)
            (cached_id env.tiktok_crm_event_set_id)
  unfolding from_cache
  from_cache-first id (some set) w settles h = refl
  from_cache-first id none w settles h = rw h (from_row-first id _ _ settles)

  -- Where Redis answers the read, never hangs on the write, and Postgres answers, `resolve` gives
  -- what the documented order picks: the cached id, the table's, the environment's (each only
  -- where it is not empty, but for the table's), or the error.
  pub resolve-order :
      (id : String) (w : World R) (cached : Option String)
      → (R.get (cache_key id) w.now w.redis).0 ≡ ok cached
      → ((set : String) (now : ℕ) (c : R.Conn)
          → (R.set_ex (cache_key id) set cache_ttl now c).0 ≢ hangs)
      → outside.statement w.statements ≡ answered
      → (resolve outside env id w).0
        ≡ first_source id
            (cached_id cached)
            (find_event_set id w.tables.event_sets)
            (cached_id env.tiktok_crm_event_set_id)
  unfolding resolve
  resolve-order id w cached hit settles h =
      rw hit (from_cache-first id (cached_id cached) _ settles h)
