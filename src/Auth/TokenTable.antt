-- ===== src/Auth/TokenTable.antt =====
-- auth/token-store.ts: its SQL statements as functions on the table of tokens.
use salesforce_tiktok_crm.Base.{
  ℕ, String, Option, none, some, List, [], ◌∷◌, ltb, leb, ◌==◌, if◌then◌else◌,
}
use salesforce_tiktok_crm.Types.Auth.{date, StoredToken, ActiveToken}
use salesforce_tiktok_crm.World.{Tables}

pub record UpsertParams : Type 0 where
  pub advertiser_id : String
  pub access_token : String
  pub refresh_token : String
  pub access_token_expires_at : ℕ
  pub refresh_token_expires_at : ℕ
  pub scope : String

-- `WHERE advertiser_id = $1 LIMIT 1`
unfoldable pub find_token : String → List StoredToken → Option StoredToken
find_token id [] = none
find_token id (t ∷ ts) = if t.advertiser_id == id then some t else find_token id ts

-- the row that `ON CONFLICT (advertiser_id) DO UPDATE` leaves, which keeps its id and its creation
abbrev pub merged_token : Option StoredToken → StoredToken → StoredToken
merged_token none row = row
merged_token (some old) row = record row { id = old.id; created_at = old.created_at }

unfoldable pub put_token : StoredToken → List StoredToken → List StoredToken
put_token row [] = row ∷ []
put_token row (t ∷ ts) =
    if t.advertiser_id == row.advertiser_id then row ∷ ts else t ∷ put_token row ts

-- `INSERT … ON CONFLICT (advertiser_id) DO UPDATE … RETURNING *`
unfoldable pub upsert_token : StoredToken → Tables → StoredToken × Tables
unfolding find_token put_token
upsert_token row t =
    let merged = merged_token (find_token row.advertiser_id t.tokens) row in
    (merged, record t { tokens = put_token merged t.tokens })

-- `AND refresh_token_expires_at > $2`
unfoldable pub unexpired : ℕ → Option StoredToken → Option StoredToken
unexpired now none = none
unexpired now (some t) = if ltb now t.refresh_token_expires_at then some t else none

unfoldable pub remove_token : String → List StoredToken → List StoredToken
remove_token id [] = []
remove_token id (t ∷ ts) =
    let rest = remove_token id ts in if t.advertiser_id == id then rest else t ∷ rest

-- `ORDER BY updated_at DESC`
unfoldable pub insert_latest : StoredToken → List StoredToken → List StoredToken
insert_latest row [] = row ∷ []
insert_latest row (t ∷ ts) =
    if leb t.updated_at row.updated_at then row ∷ t ∷ ts else t ∷ insert_latest row ts

unfoldable pub latest_active : ℕ → List StoredToken → List StoredToken
unfolding insert_latest
latest_active now [] = []
latest_active now (t ∷ ts) =
    let rest = latest_active now ts in
    if ltb now t.refresh_token_expires_at then insert_latest t rest else rest

abbrev pub active_of : StoredToken → ActiveToken
active_of t = record {
  access_token = t.access_token;
  advertiser_id = t.advertiser_id;
  expires_at = date t.access_token_expires_at;
}

abbrev pub row_of : UpsertParams → String → ℕ → StoredToken
row_of params id now = record {
  id = id;
  advertiser_id = params.advertiser_id;
  access_token = params.access_token;
  refresh_token = params.refresh_token;
  access_token_expires_at = params.access_token_expires_at;
  refresh_token_expires_at = params.refresh_token_expires_at;
  scope = params.scope;
  created_at = now;
  updated_at = now;
}

abbrev pub select_active : String → ℕ → Tables → Option StoredToken × Tables
select_active id now t = (unexpired now (find_token id t.tokens), t)
