-- ===== src/System/Stable.antt =====
-- What the statements of the program have to keep.
use salesforce_tiktok_crm.Base.{ℕ, String, List, Option}
use salesforce_tiktok_crm.Types.{TikTokApiResponse, EventLogStatus}
use salesforce_tiktok_crm.Types.Auth.{StoredToken}
use salesforce_tiktok_crm.World.{Tables, LogRow, EventSetRow, Request, Job}
use salesforce_tiktok_crm.World.Keeping.{History}
use salesforce_tiktok_crm.EventLog.{insert_row, update_rows, updated, on_log}
use salesforce_tiktok_crm.EventSet.Storage.{upsert_row, on_sets}
use salesforce_tiktok_crm.Auth.TokenTable.{upsert_token, remove_token}

pub record Stable (J : History) : Type 0 where
  pub insert :
      (row : LogRow) (t : Tables) (rs : List Request) (js : List Job)
      → J t rs js
      → J (on_log (insert_row row) t).1 rs js
  pub update :
      (id : String) (status : EventLogStatus) (response : Option TikTokApiResponse)
      (error : Option String) (now : ℕ) (t : Tables) (rs : List Request) (js : List Job)
      → J t rs js
      → J (on_log (update_rows id (updated status response error now)) t).1 rs js
  pub upsert_set :
      (row : EventSetRow) (t : Tables) (rs : List Request) (js : List Job)
      → J t rs js
      → J (on_sets (upsert_row row) t).1 rs js
  pub upsert_token :
      (row : StoredToken) (t : Tables) (rs : List Request) (js : List Job)
      → J t rs js
      → J (upsert_token row t).1 rs js
  pub remove_token :
      (id : String) (t : Tables) (rs : List Request) (js : List Job)
      → J t rs js
      → J (record t { tokens = remove_token id t.tokens }) rs js
