-- ===== src/System/Keys.antt =====
-- Each table has one row at most for a key, and every statement keeps that.
use salesforce_tiktok_crm.Base.{
  ℕ, String, ◌≡◌, ◌≢◌, refl, sym, ◌∙◌, ap, Option, none, some, List, [], ◌∷◌, ◌++◌, map, false,
  Bool-cases, Option-cases, inl, inr, ◌==◌, eq_iff, All, All-append,
}
use salesforce_tiktok_crm.Types.{TikTokApiResponse, EventLogStatus}
use salesforce_tiktok_crm.Types.Auth.{StoredToken}
use salesforce_tiktok_crm.World.{Tables, LogRow, EventSetRow}
use salesforce_tiktok_crm.EventLog.{find_row, insert_row, update_rows, updated}
use salesforce_tiktok_crm.EventSet.Storage.{upsert_row}
use salesforce_tiktok_crm.Auth.TokenTable.{
  find_token, put_token, merged_token, upsert_token, remove_token,
}

abbrev pub Apart : String → List String → Type 0
Apart x = All (λ y. x ≢ y)

abbrev pub Distinct : List String → Type 0
Distinct [] = Unit
Distinct (x ∷ xs) = Apart x xs × Distinct xs

abbrev pub log_keys : List LogRow → List String
log_keys = map (λ (r : LogRow). r.event_id)

abbrev pub set_keys : List EventSetRow → List String
set_keys = map (λ (r : EventSetRow). r.advertiser_id)

abbrev pub token_keys : List StoredToken → List String
token_keys = map (λ (r : StoredToken). r.advertiser_id)

differs : (a b : String) → (a == b) ≡ false → a ≢ b
differs a b h e = let same = (eq_iff a b).1 e in absurd cc

-- one more row, with a key that no row has
Distinct-snoc :
    (xs : List String) (x : String) → Distinct xs → All (λ y. y ≢ x) xs → Distinct (xs ++ x ∷ [])
Distinct-snoc [] x d new = (tt, tt)
Distinct-snoc (y ∷ ys) x (apart, d) (n, new) =
    (All-append (λ z. y ≢ z) ys (x ∷ []) apart (n, tt), Distinct-snoc ys x d new)

missing_row :
    (id : String) (rows : List LogRow) → find_row id rows ≡ none → All (λ k. k ≢ id) (log_keys rows)
unfolding find_row
missing_row id [] h = tt
missing_row id (r ∷ rs) h = elim (Bool-cases (r.event_id == id)) [
  | inl e ↦ let found : find_row id (r ∷ rs) ≡ some r = rw e refl in absurd cc
  | inr e ↦
      let later : find_row id (r ∷ rs) ≡ find_row id rs = rw e refl in
      (differs r.event_id id e, missing_row id rs (sym later ∙ h))
]

log_keys-append :
    (rows : List LogRow) (row : LogRow)
    → log_keys (rows ++ row ∷ []) ≡ log_keys rows ++ row.event_id ∷ []
log_keys-append [] row = refl
log_keys-append (r ∷ rs) row = ap (◌∷◌ r.event_id) (log_keys-append rs row)

pub insert_row-Distinct :
    (row : LogRow) (rows : List LogRow)
    → Distinct (log_keys rows)
    → Distinct (log_keys (insert_row row rows))
unfolding insert_row
insert_row-Distinct row rows d = elim (Option-cases (find_row row.event_id rows)) [
  | inl e ↦
      rw (e, log_keys-append rows row)
        (Distinct-snoc (log_keys rows) row.event_id d (missing_row row.event_id rows e))
  | inr (old, e) ↦ rw e d
]

log_keys-update_rows :
    (id : String) (status : EventLogStatus) (response : Option TikTokApiResponse)
    (error : Option String) (now : ℕ) (rows : List LogRow)
    → log_keys (update_rows id (updated status response error now) rows) ≡ log_keys rows
unfolding update_rows
log_keys-update_rows id status response error now [] = refl
log_keys-update_rows id status response error now (r ∷ rs) = elim (Bool-cases (r.event_id == id)) [
  | inl e ↦ rw e (ap (◌∷◌ r.event_id) (log_keys-update_rows id status response error now rs))
  | inr e ↦ rw e (ap (◌∷◌ r.event_id) (log_keys-update_rows id status response error now rs))
]

pub update_rows-Distinct :
    (id : String) (status : EventLogStatus) (response : Option TikTokApiResponse)
    (error : Option String) (now : ℕ) (rows : List LogRow)
    → Distinct (log_keys rows)
    → Distinct (log_keys (update_rows id (updated status response error now) rows))
update_rows-Distinct id status response error now rows d =
    rw (log_keys-update_rows id status response error now rows) d

Apart-upsert_row :
    (x : String) (row : EventSetRow) (rows : List EventSetRow)
    → x ≢ row.advertiser_id
    → Apart x (set_keys rows)
    → Apart x (set_keys (upsert_row row rows))
unfolding upsert_row
Apart-upsert_row x row [] n apart = (n, tt)
Apart-upsert_row x row (r ∷ rs) n (m, apart) =
    elim (Bool-cases (r.advertiser_id == row.advertiser_id)) [
      | inl e ↦ rw e (n, apart)
      | inr e ↦ rw e (m, Apart-upsert_row x row rs n apart)
    ]

pub upsert_row-Distinct :
    (row : EventSetRow) (rows : List EventSetRow)
    → Distinct (set_keys rows)
    → Distinct (set_keys (upsert_row row rows))
unfolding upsert_row
upsert_row-Distinct row [] d = (tt, tt)
upsert_row-Distinct row (r ∷ rs) (apart, d) =
    elim (Bool-cases (r.advertiser_id == row.advertiser_id)) [
      | inl e ↦
          let same = (eq_iff r.advertiser_id row.advertiser_id).0 e in rw (e, ← same) (apart, d)
      | inr e ↦ rw e (
        Apart-upsert_row r.advertiser_id row rs (differs r.advertiser_id row.advertiser_id e) apart,
        upsert_row-Distinct row rs d,
      )
    ]

Apart-put_token :
    (x : String) (row : StoredToken) (rows : List StoredToken)
    → x ≢ row.advertiser_id
    → Apart x (token_keys rows)
    → Apart x (token_keys (put_token row rows))
unfolding put_token
Apart-put_token x row [] n apart = (n, tt)
Apart-put_token x row (r ∷ rs) n (m, apart) =
    elim (Bool-cases (r.advertiser_id == row.advertiser_id)) [
      | inl e ↦ rw e (n, apart)
      | inr e ↦ rw e (m, Apart-put_token x row rs n apart)
    ]

put_token-Distinct :
    (row : StoredToken) (rows : List StoredToken)
    → Distinct (token_keys rows)
    → Distinct (token_keys (put_token row rows))
unfolding put_token
put_token-Distinct row [] d = (tt, tt)
put_token-Distinct row (r ∷ rs) (apart, d) =
    elim (Bool-cases (r.advertiser_id == row.advertiser_id)) [
      | inl e ↦
          let same = (eq_iff r.advertiser_id row.advertiser_id).0 e in rw (e, ← same) (apart, d)
      | inr e ↦ rw e (
        Apart-put_token r.advertiser_id row rs (differs r.advertiser_id row.advertiser_id e) apart,
        put_token-Distinct row rs d,
      )
    ]

pub upsert_token-Distinct :
    (row : StoredToken) (t : Tables)
    → Distinct (token_keys t.tokens)
    → Distinct (token_keys (upsert_token row t).1.tokens)
unfolding upsert_token
upsert_token-Distinct row t d =
    put_token-Distinct (merged_token (find_token row.advertiser_id t.tokens) row) t.tokens d

Apart-remove_token :
    (x id : String) (rows : List StoredToken)
    → Apart x (token_keys rows)
    → Apart x (token_keys (remove_token id rows))
unfolding remove_token
Apart-remove_token x id [] apart = tt
Apart-remove_token x id (r ∷ rs) (n, apart) = elim (Bool-cases (r.advertiser_id == id)) [
  | inl e ↦ rw e (Apart-remove_token x id rs apart)
  | inr e ↦ rw e (n, Apart-remove_token x id rs apart)
]

pub remove_token-Distinct :
    (id : String) (rows : List StoredToken)
    → Distinct (token_keys rows)
    → Distinct (token_keys (remove_token id rows))
unfolding remove_token
remove_token-Distinct id [] d = tt
remove_token-Distinct id (r ∷ rs) (apart, d) = elim (Bool-cases (r.advertiser_id == id)) [
  | inl e ↦ rw e (remove_token-Distinct id rs d)
  | inr e ↦ rw e (Apart-remove_token r.advertiser_id id rs apart, remove_token-Distinct id rs d)
]
