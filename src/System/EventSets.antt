-- ===== src/System/EventSets.antt =====
-- The event sets keep what their statements keep.
use salesforce_tiktok_crm.Base.{ℕ, String, Option, none, some, List, [], ◌∷◌}
use salesforce_tiktok_crm.Config.{Env}
use salesforce_tiktok_crm.Exec.{ok, thrown}
use salesforce_tiktok_crm.Redis.{Redis}
use salesforce_tiktok_crm.Types.EventSets.{CrmEventSet}
use salesforce_tiktok_crm.World.{
  EventSetRow, EventSetSource, list_call, create_call, auto_created, auto_selected,
  manually_selected, Outside, World,
}
use salesforce_tiktok_crm.World.Keeping.{
  History, At, Keeps, Keeps-run, Keeps-bind, Keeps-recover, command-Keeps, query-Keeps, call-Keeps,
}
use salesforce_tiktok_crm.EventSet.{
  cache_key, cache_ttl, cached_id, find_event_set, get_cached, warm_cache, env_fallback_id,
  from_row, from_cache, resolve,
}
use salesforce_tiktok_crm.EventSet.Storage.{upsert_row, stored_row, on_sets, store}
use salesforce_tiktok_crm.EventSet.Manager.{
  event_set_name, find_set, list, create, provision_sets, provision, select_found, select,
}
use salesforce_tiktok_crm.System.Stable.{Stable}
use salesforce_tiktok_crm.System.Authorization.{assert_success-Keeps}

module _ {R : Redis} (J : History) (stable : Stable J) (outside : Outside) (env : Env) where
  get_cached-Keeps : (id : String) (w : World R) → At J w → Keeps J (get_cached outside env id w)
  unfolding get_cached
  get_cached-Keeps id w i =
      Keeps-recover J _ _ _
        (Keeps-bind J _ _ _ (command-Keeps J (R.get (cache_key id) w.now) w i)
          (λ cached v j. Keeps-run J (ok (cached_id cached)) v j))
        (λ m v j. Keeps-run J (ok none) v j)

  warm_cache-Keeps :
      (id set : String) (w : World R) → At J w → Keeps J (warm_cache outside env id set w)
  unfolding warm_cache
  warm_cache-Keeps id set w i =
      Keeps-recover J _ _ _ (command-Keeps J (R.set_ex (cache_key id) set cache_ttl w.now) w i)
        (λ m v j. Keeps-run J (ok tt) v j)

  env_fallback_id-Keeps :
      (id : String) (o : Option String) (w : World R)
      → At J w
      → Keeps J (env_fallback_id outside env id o w)
  unfolding env_fallback_id
  env_fallback_id-Keeps id none w i = Keeps-run J (thrown _) w i
  env_fallback_id-Keeps id (some String.[]) w i = Keeps-run J (thrown _) w i
  env_fallback_id-Keeps id (some (String.◌∷◌ c s)) w i = Keeps-run J (ok _) w i

  from_row-Keeps :
      (id : String) (o : Option EventSetRow) (w : World R)
      → At J w
      → Keeps J (from_row outside env id o w)
  unfolding from_row
  from_row-Keeps id none w i = env_fallback_id-Keeps id env.tiktok_crm_event_set_id w i
  from_row-Keeps id (some row) w i =
      Keeps-bind J _ _ _ (warm_cache-Keeps id row.event_set_id w i)
        (λ _ v j. Keeps-run J (ok row.event_set_id) v j)

  from_cache-Keeps :
      (id : String) (o : Option String) (w : World R)
      → At J w
      → Keeps J (from_cache outside env id o w)
  unfolding from_cache
  from_cache-Keeps id (some set) w i = Keeps-run J (ok set) w i
  from_cache-Keeps id none w i =
      Keeps-bind J _ _ _ (query-Keeps J outside (λ t. (find_event_set id t.event_sets, t)) w i i)
        (λ row v j. from_row-Keeps id row v j)

  pub resolve-Keeps : (id : String) (w : World R) → At J w → Keeps J (resolve outside env id w)
  unfolding resolve
  resolve-Keeps id w i =
      Keeps-bind J _ _ _ (get_cached-Keeps id w i) (λ cached v j. from_cache-Keeps id cached v j)

  store-Keeps :
      (id : String) (set : CrmEventSet) (source : EventSetSource) (w : World R)
      → At J w
      → Keeps J (store outside env id set source w)
  unfolding store
  store-Keeps id set source w i =
      Keeps-bind J _ _ _
        (query-Keeps J outside (on_sets (upsert_row (stored_row id set source w.now))) w i
          (stable.upsert_set (stored_row id set source w.now) w.tables w.requests w.jobs i))
        (λ _ v j. warm_cache-Keeps id set.event_set_id v j)

module _ {R : Redis} (J : History) (stable : Stable J) (outside : Outside) (env : Env)
    (day : ℕ → String) where
  pub list-Keeps :
      (id token : String) (w : World R) → At J w → Keeps J (list outside env day id token w)
  unfolding list
  list-Keeps id token w i =
      Keeps-bind J _ _ _ (call-Keeps J outside (list_call token id) outside.list_sets w i)
        (λ answer v j.
          Keeps-bind J _ _ _ (assert_success-Keeps J answer.code answer.message _ v j)
            (λ _ v' j'. Keeps-run J (ok _) v' j'))

  pub create-Keeps :
      (id token : String) (name : Option String) (w : World R)
      → At J w
      → Keeps J (create outside env day id token name w)
  unfolding create
  create-Keeps id token name w i =
      Keeps-bind J _ _ _
        (call-Keeps J outside (create_call token id (event_set_name day w.now name))
          outside.create_set w i)
        (λ answer v j.
          Keeps-bind J _ _ _ (assert_success-Keeps J answer.code answer.message _ v j)
            (λ _ v' j'. Keeps-run J (ok _) v' j'))

  provision_sets-Keeps :
      (id token : String) (name : Option String) (sets : List CrmEventSet) (w : World R)
      → At J w
      → Keeps J (provision_sets outside env day id token name sets w)
  unfolding provision_sets
  provision_sets-Keeps id token name [] w i =
      Keeps-bind J _ _ _ (create-Keeps id token name w i) (λ made v j.
        Keeps-bind J _ _ _ (store-Keeps J stable outside env id made auto_created v j)
          (λ _ v' j'. Keeps-run J (ok _) v' j'))
  provision_sets-Keeps id token name (s ∷ []) w i =
      Keeps-bind J _ _ _ (store-Keeps J stable outside env id s auto_selected w i)
        (λ _ v j. Keeps-run J (ok _) v j)
  provision_sets-Keeps id token name (s ∷ t ∷ ss) w i = Keeps-run J (ok _) w i

  pub provision-Keeps :
      (id token : String) (name : Option String) (w : World R)
      → At J w
      → Keeps J (provision outside env day id token name w)
  unfolding provision
  provision-Keeps id token name w i =
      Keeps-recover J _ _ _
        (Keeps-bind J _ _ _ (list-Keeps id token w i)
          (λ sets v j. provision_sets-Keeps id token name sets v j))
        (λ m v j. Keeps-run J (ok _) v j)

  select_found-Keeps :
      (id set : String) (o : Option CrmEventSet) (w : World R)
      → At J w
      → Keeps J (select_found outside env day id set o w)
  unfolding select_found
  select_found-Keeps id set none w i = Keeps-run J (thrown _) w i
  select_found-Keeps id set (some s) w i =
      Keeps-bind J _ _ _ (store-Keeps J stable outside env id s manually_selected w i)
        (λ _ v j. Keeps-run J (ok s) v j)

  pub select-Keeps :
      (id set token : String) (w : World R)
      → At J w
      → Keeps J (select outside env day id set token w)
  unfolding select
  select-Keeps id set token w i =
      Keeps-bind J _ _ _ (list-Keeps id token w i)
        (λ sets v j. select_found-Keeps id set (find_set set sets) v j)
