-- ===== src/Examples/EventSets.antt =====
-- Event sets on sample data.
use salesforce_tiktok_crm.Base.{ℕ, String, ◌≡◌, refl, none, some, [], ◌∷◌, arith}
use salesforce_tiktok_crm.Types.EventSets.{CrmEventSet, ProvisionResult}
use salesforce_tiktok_crm.Exec.{ok}
use salesforce_tiktok_crm.Redis.Memory.{memory, memory-RedisLaws}
use salesforce_tiktok_crm.World.{
  Outside, World, reply, EventSetRow, auto_created, manually_selected,
}
use salesforce_tiktok_crm.EventSet.{resolve, cached_id, find_event_set, cache_key}
use salesforce_tiktok_crm.EventSet.Resolution.{first_source, resolve-order}
use salesforce_tiktok_crm.EventSet.Storage.{store, stored_row}
use salesforce_tiktok_crm.EventSet.Storage.RoundTrip.{stored_id, resolve-store}
use salesforce_tiktok_crm.EventSet.Manager.{provision, select}
use salesforce_tiktok_crm.Exec.Rules.{Run}
use salesforce_tiktok_crm.EventSet.Manager.Selecting.{Selected, select-Selected}
use salesforce_tiktok_crm.EventSet.Manager.Provisioning.{Outcome, provision-Outcome}
use salesforce_tiktok_crm.Examples.Storing.{services, world, with_token, memory-Responsive}

resolve-order_example :
    (resolve services with_token "7001" world).0
    ≡ first_source "7001" (cached_id none) (find_event_set "7001" []) (cached_id (some "set"))
resolve-order_example =
    resolve-order services with_token "7001" world none refl (λ s now c. λ h. ground arith) refl

abbrev event_set : CrmEventSet
event_set = record {
  event_set_id = "set-9";
  name = "CRM";
  advertiser_id = "7001";
  create_time = 0;
  update_time = 0;
  event_count = none;
}

-- An earlier selection is in the table.
abbrev with_row : EventSetRow → World memory
with_row row = record world { tables = record world.tables { event_sets = row ∷ [] } }

abbrev old_row : EventSetRow
old_row = stored_row "7001" (record event_set { event_set_id = "set-1" }) auto_created 0

resolve-store_example :
    let (result, stored) =
      store services with_token "7001" event_set manually_selected (with_row old_row) in
    (result ≡ ok tt)
    × (stored_id (find_event_set "7001" stored.tables.event_sets) ≡ some "set-9")
    × ((resolve services with_token "7001" (record stored { now = 90000000 })).0 ≡ ok "set-9")
resolve-store_example =
    resolve-store memory-RedisLaws services with_token "7001" event_set manually_selected
      (with_row old_row) 90000000 none refl refl refl (omega arith) (unfold cache_key in refl)
      (λ s now c. λ h. ground arith) refl

-- The advertiser has one event set.
abbrev one_set : Outside
one_set = record services {
  list_sets = λ n. reply (record { code = 0; message = "OK"; list = some (event_set ∷ []) });
}

provision-Outcome_example :
    (a : ProvisionResult) × ((provision one_set with_token
        (λ n. "2024-01-15")
        "7001"
        "token"
        none
        world).0
      ≡ ok a)
    × Outcome memory-Responsive one_set with_token
        (λ n. "2024-01-15")
        "7001"
        "token"
        none
        world
        a
        (provision one_set with_token (λ n. "2024-01-15") "7001" "token" none world).1
provision-Outcome_example =
    provision-Outcome memory-Responsive one_set with_token (λ n. "2024-01-15") "7001" "token" none
      world

select-Selected_example :
    Run
      (Selected memory-Responsive one_set with_token
        (λ n. "2024-01-15")
        "7001"
        "token"
        "set-9"
        world)
      (λ _ _. Unit {0})
      (λ _. ⊥)
      (select one_set with_token (λ n. "2024-01-15") "7001" "set-9" "token" world)
select-Selected_example =
    select-Selected memory-Responsive one_set with_token (λ n. "2024-01-15") "7001" "set-9" "token"
      world

abbrev day : ℕ → String
day n = "2024-01-15"
