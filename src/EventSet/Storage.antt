-- ===== src/EventSet/Storage.antt =====
-- event-set/crm-event-set-manager.ts, `store`: an advertiser's event set in the table and the cache.
pub mod RoundTrip
use salesforce_tiktok_crm.Base.{ℕ, String, Bool, Option, List, [], ◌∷◌, ◌==◌, if◌then◌else◌}
use salesforce_tiktok_crm.Config.{Env}
use salesforce_tiktok_crm.Types.EventSets.{CrmEventSet}
use salesforce_tiktok_crm.Exec.{Exec, ◌>>=◌, ◌>>◌}
use salesforce_tiktok_crm.Redis.{Redis}
use salesforce_tiktok_crm.World.{EventSetRow, EventSetSource, Tables, Outside, World, query}
use salesforce_tiktok_crm.EventSet.{warm_cache}

-- `INSERT … ON CONFLICT (advertiser_id) DO UPDATE SET …`: the row that is there keeps its creation
unfoldable pub upsert_row : EventSetRow → List EventSetRow → List EventSetRow
upsert_row row [] = row ∷ []
upsert_row row (r ∷ rs) =
    if r.advertiser_id == row.advertiser_id
    then record row { created_at = r.created_at } ∷ rs
    else r ∷ upsert_row row rs

abbrev pub stored_row : String → CrmEventSet → EventSetSource → ℕ → EventSetRow
stored_row advertiser_id event_set source now = record {
  advertiser_id = advertiser_id;
  event_set_id = event_set.event_set_id;
  event_set_name = event_set.name;
  source = source;
  created_at = now;
  updated_at = now;
}

abbrev pub on_sets : (List EventSetRow → List EventSetRow) → Tables → Unit {0} × Tables
on_sets f t = (tt, record t { event_sets = f t.event_sets })

module _ {R : Redis} (outside : Outside) (env : Env) where
  unfoldable pub store : String → CrmEventSet → EventSetSource → Exec (World R) (Unit {0})
  unfolding query upsert_row warm_cache
  store advertiser_id event_set source w =
      (do
        query outside (on_sets (upsert_row (stored_row advertiser_id event_set source w.now)))
        warm_cache outside env advertiser_id event_set.event_set_id)
        w
