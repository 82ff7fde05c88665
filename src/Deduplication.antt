-- ===== src/Deduplication.antt =====
-- deduplication/redis-dedup.ts, over the interface of Redis.
pub mod Bulk
pub mod Interleaving
pub mod Window
use Prim.Native.String
use salesforce_tiktok_crm.Base.{ℕ, String, Bool, true, false, not, List, [], ◌∷◌, if◌then◌else◌}
use salesforce_tiktok_crm.Config.{Env}
use salesforce_tiktok_crm.Exec.{Exec, return, recover, ◌>>=◌}
use salesforce_tiktok_crm.Redis.{Redis}

unfoldable pub dedup_key : String → String
dedup_key event_id = String.◌++◌ "crm:dedup:" event_id

module _ (R : Redis) (env : Env) where
  -- A throw of Redis lets the event through.
  unfoldable pub is_duplicate : String → ℕ → Exec R.Conn Bool
  is_duplicate event_id now =
      recover
        (do
          set ← R.set_nx (dedup_key event_id) "1" env.redis_dedup_ttl_seconds now
          return (not set))
        (λ _. return false)

  -- The ids that are duplicates, by checks in the order of the list.
  unfoldable pub filter_duplicates : List String → ℕ → Exec R.Conn (List String)
  filter_duplicates [] now = return []
  filter_duplicates (id ∷ ids) now = do
    duplicate ← is_duplicate id now
    rest ← filter_duplicates ids now
    return (if duplicate then id ∷ rest else rest)
