-- ===== src/EventLog/Reads.antt =====
-- db/event-log.ts, `findByLeadId`. Rows of one time come in the order of the table.
pub mod Order
use salesforce_tiktok_crm.Base.{String, List, [], ◌∷◌, ◌==◌, leb, if◌then◌else◌}
use salesforce_tiktok_crm.Exec.{Exec}
use salesforce_tiktok_crm.Redis.{Redis}
use salesforce_tiktok_crm.World.{LogRow, Outside, World, query}

-- `WHERE lead_id = $1`
unfoldable pub rows_of_lead : String → List LogRow → List LogRow
rows_of_lead lead_id [] = []
rows_of_lead lead_id (r ∷ rs) =
    let rest = rows_of_lead lead_id rs in if r.lead_id == lead_id then r ∷ rest else rest

-- before the rows that are no later
unfoldable pub insert_by_time : LogRow → List LogRow → List LogRow
insert_by_time row [] = row ∷ []
insert_by_time row (r ∷ rs) =
    let later = insert_by_time row rs in
    if leb r.created_at row.created_at then row ∷ r ∷ rs else r ∷ later

-- `ORDER BY created_at DESC`
unfoldable pub newest_first : List LogRow → List LogRow
unfolding insert_by_time
newest_first [] = []
newest_first (r ∷ rs) = insert_by_time r (newest_first rs)

module _ {R : Redis} (outside : Outside) where
  unfoldable pub find_by_lead_id : String → Exec (World R) (List LogRow)
  unfolding query
  find_by_lead_id lead_id =
      query outside (λ t. (newest_first (rows_of_lead lead_id t.event_log), t))
