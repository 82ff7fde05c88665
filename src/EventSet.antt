-- ===== src/EventSet.antt =====
-- event-set/crm-event-set-manager.ts: resolving an advertiser's event set. Storage stores one.
pub mod Resolution
pub mod Settling
pub mod Storage
pub mod Manager
pub mod Routes
use Prim.Native.String
use salesforce_tiktok_crm.Base.{
  ℕ, String, Bool, Option, none, some, List, [], ◌∷◌, ◌==◌, if◌then◌else◌,
}
use salesforce_tiktok_crm.Text.{non_empty}
use salesforce_tiktok_crm.Config.{Env}
use salesforce_tiktok_crm.Exec.{Exec, return, throw, recover, ◌>>=◌, ◌>>◌}
use salesforce_tiktok_crm.Redis.{Redis}
use salesforce_tiktok_crm.World.{
  EventSetRow, EventSetSource, Tables, Outside, World, query, command,
}

unfoldable pub cache_key : String → String
cache_key advertiser_id = String.◌++◌ "tiktok:event_set:" advertiser_id

abbrev pub cache_ttl : ℕ
cache_ttl = 3600

-- `SELECT event_set_id … WHERE advertiser_id = $1`
unfoldable pub find_event_set : String → List EventSetRow → Option EventSetRow
find_event_set advertiser_id [] = none
find_event_set advertiser_id (r ∷ rs) =
    if r.advertiser_id == advertiser_id then some r else find_event_set advertiser_id rs

-- `cached` if it is there and not empty
abbrev pub cached_id : Option String → Option String
cached_id none = none
cached_id (some s) = non_empty s

abbrev no_event_set : String → String
no_event_set advertiser_id = String.◌++◌ "No CRM event set found for advertiser " (
    String.◌++◌ advertiser_id (
      String.◌++◌ ". Complete provisioning at POST /event-sets/" (
        String.◌++◌ advertiser_id
          "/provision or set TIKTOK_CRM_EVENT_SET_ID in your environment.")))

module _ {R : Redis} (outside : Outside) (env : Env) where
  -- the read of the cache, where an error is a miss
  unfoldable pub get_cached : String → Exec (World R) (Option String)
  unfolding command
  get_cached advertiser_id w =
      recover
        (do cached ← command (R.get (cache_key advertiser_id) w.now); return (cached_id cached))
        (λ _. return none) w

  -- the write of the cache, where an error is ignored
  unfoldable pub warm_cache : String → String → Exec (World R) (Unit {0})
  unfolding command
  warm_cache advertiser_id id w =
      recover (command (R.set_ex (cache_key advertiser_id) id cache_ttl w.now)) (λ _. return tt) w

  unfoldable pub env_fallback_id : String → Option String → Exec (World R) String
  env_fallback_id advertiser_id none = throw (no_event_set advertiser_id)
  env_fallback_id advertiser_id (some String.[]) = throw (no_event_set advertiser_id)
  env_fallback_id advertiser_id (some (String.◌∷◌ c s)) = return (String.◌∷◌ c s)

  unfoldable pub from_row : String → Option EventSetRow → Exec (World R) String
  unfolding warm_cache env_fallback_id
  from_row advertiser_id (some row) = do
    warm_cache advertiser_id row.event_set_id
    return row.event_set_id
  from_row advertiser_id none = env_fallback_id advertiser_id env.tiktok_crm_event_set_id

  unfoldable pub from_cache : String → Option String → Exec (World R) String
  unfolding from_row query
  from_cache advertiser_id (some id) = return id
  from_cache advertiser_id none = do
    row ← query outside (λ t. (find_event_set advertiser_id t.event_sets, t))
    from_row advertiser_id row

  unfoldable pub resolve : String → Exec (World R) String
  unfolding get_cached from_cache find_event_set
  resolve advertiser_id = do cached ← get_cached advertiser_id; from_cache advertiser_id cached
