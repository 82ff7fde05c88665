-- ===== src/EventSet/Settling.antt =====
-- Resolving an event set settles where Redis does.
use salesforce_tiktok_crm.Base.{ℕ, String, Option, none, some}
use salesforce_tiktok_crm.Config.{Env}
use salesforce_tiktok_crm.Exec.{thrown}
use salesforce_tiktok_crm.Redis.{Redis}
use salesforce_tiktok_crm.Clients.RateLimiter.{RateLimiter}
use salesforce_tiktok_crm.World.{EventSetRow, Outside, World}
use salesforce_tiktok_crm.World.Settled.{
  Responsive, thrown-ne-hangs, Settles, Settles-run, Settles-return, Settles-bind, Settles-recover,
  command-Settles, query-Settles,
}
use salesforce_tiktok_crm.EventSet.{
  cache_key, cache_ttl, cached_id, find_event_set, no_event_set, get_cached, warm_cache,
  env_fallback_id, from_row, from_cache, resolve,
}

module _ {R : Redis} (answers : Responsive R) (outside : Outside) (env : Env)
    (K : RateLimiter → ℕ → Type 0) where
  get_cached-Settles :
      (id : String) (w : World R) → K w.limiter w.now → Settles K (get_cached outside env id w)
  unfolding get_cached
  get_cached-Settles id w k =
      Settles-recover K _ _ _
        (Settles-bind K _ _ _
          (command-Settles K (R.get (cache_key id) w.now) w (answers.get _ _ _) k)
          (λ cached w'. Settles-return K (cached_id cached) w'))
        (λ m w'. Settles-return K none w')

  warm_cache-Settles :
      (id set : String) (w : World R)
      → K w.limiter w.now
      → Settles K (warm_cache outside env id set w)
  unfolding warm_cache
  warm_cache-Settles id set w k =
      Settles-recover K _ _ _
        (command-Settles K (R.set_ex (cache_key id) set cache_ttl w.now) w
          (answers.set_ex _ _ _ _ _) k)
        (λ m w'. Settles-return K tt w')

  env_fallback_id-Settles :
      (id : String) (o : Option String) (w : World R)
      → K w.limiter w.now
      → Settles K (env_fallback_id outside env id o w)
  unfolding env_fallback_id
  env_fallback_id-Settles id none w k =
      Settles-run K (thrown (no_event_set id)) w (thrown-ne-hangs String _) k
  env_fallback_id-Settles id (some String.[]) w k =
      Settles-run K (thrown (no_event_set id)) w (thrown-ne-hangs String _) k
  env_fallback_id-Settles id (some (String.◌∷◌ c s)) w k = Settles-return K _ w k

  from_row-Settles :
      (id : String) (o : Option EventSetRow) (w : World R)
      → K w.limiter w.now
      → Settles K (from_row outside env id o w)
  unfolding from_row
  from_row-Settles id none w k = env_fallback_id-Settles id _ w k
  from_row-Settles id (some row) w k =
      Settles-bind K _ _ _ (warm_cache-Settles id _ w k)
        (λ _ w'. Settles-return K row.event_set_id w')

  from_cache-Settles :
      (id : String) (o : Option String) (w : World R)
      → K w.limiter w.now
      → Settles K (from_cache outside env id o w)
  unfolding from_cache
  from_cache-Settles id (some set) w k = Settles-return K set w k
  from_cache-Settles id none w k =
      Settles-bind K _ _ _ (query-Settles K outside (λ t. (find_event_set id t.event_sets, t)) w k)
        (λ row w' k'. from_row-Settles id row w' k')

  pub resolve-Settles :
      (id : String) (w : World R) → K w.limiter w.now → Settles K (resolve outside env id w)
  unfolding resolve
  resolve-Settles id w k =
      Settles-bind K _ _ _ (get_cached-Settles id w k)
        (λ cached w' k'. from_cache-Settles id cached w' k')
