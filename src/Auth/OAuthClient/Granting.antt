-- ===== src/Auth/OAuthClient/Granting.antt =====
-- After an exchange every advertiser of the grant has the new token.
use salesforce_tiktok_crm.Base.{
  ℕ, String, ◌≡◌, refl, sym, ◌∙◌, ap, Option, none, some, List, [], ◌∷◌, map, false, Bool-cases,
  inl, inr, ◌⊎◌, ◌==◌, eq_iff, All,
}
use salesforce_tiktok_crm.Config.{AppCredentials}
use salesforce_tiktok_crm.Exec.{Result}
use salesforce_tiktok_crm.Exec.Rules.{Run, Run-bind, Run-mono}
use salesforce_tiktok_crm.Redis.{Redis}
use salesforce_tiktok_crm.EventLog.{new_uuid}
use salesforce_tiktok_crm.Types.Auth.{StoredToken, TikTokTokenResponse}
use salesforce_tiktok_crm.World.{exchange_call, reply, Tables, Outside, World}
use salesforce_tiktok_crm.World.Running.{query-Run, call-Run, return-Run}
use salesforce_tiktok_crm.World.Settled.{AllResponsive}
use salesforce_tiktok_crm.Auth.TokenTable.{
  UpsertParams, find_token, put_token, merged_token, upsert_token, row_of,
}
use salesforce_tiktok_crm.Auth.TokenStore.{TokenCodec, upsert}
use salesforce_tiktok_crm.Auth.TokenStore.Lookup.{find_token-put_token}
use salesforce_tiktok_crm.Auth.TokenStore.Effects.{upsert_token-found, cache_token-Holds}
use salesforce_tiktok_crm.Auth.OAuthClient.{granted, store_each, exchange_auth_code}
use salesforce_tiktok_crm.Auth.OAuthClient.Checking.{assert_success-Run}

-- An advertiser's row has this access token.
abbrev pub HasToken : (access_token id : String) → Tables → Type 0
HasToken access id t =
    (row : StoredToken) × (find_token id t.tokens ≡ some row) × (row.access_token ≡ access)

merged-advertiser :
    (old : Option StoredToken) (row : StoredToken)
    → (merged_token old row).advertiser_id ≡ row.advertiser_id
merged-advertiser none row = refl
merged-advertiser (some old) row = refl

upsert_token-other :
    (row : StoredToken) (t : Tables) (id : String)
    → (row.advertiser_id == id) ≡ false
    → find_token id (upsert_token row t).1.tokens ≡ find_token id t.tokens
unfolding upsert_token
upsert_token-other row t id h = by_old (find_token row.advertiser_id t.tokens)
  where
    by_old :
        (old : Option StoredToken)
        → find_token id (put_token (merged_token old row) t.tokens) ≡ find_token id t.tokens
    by_old old =
        rw (find_token-put_token (merged_token old row) t.tokens id, merged-advertiser old row, h)
          refl

upsert_token-HasToken :
    (access : String) (row : StoredToken) (t : Tables) (id : String)
    → row.access_token ≡ access
    → (id ≡ row.advertiser_id) ⊎ HasToken access id t
    → HasToken access id (upsert_token row t).1
upsert_token-HasToken access row t id new before = elim (Bool-cases (row.advertiser_id == id)) [
  | inl e ↦
      let same = (eq_iff row.advertiser_id id).0 e in
      let (token, found) = upsert_token-found row t in
      (
        (upsert_token row t).0,
        ap (λ i. find_token i (upsert_token row t).1.tokens) (sym same) ∙ found,
        token ∙ new,
      )
  | inr e ↦ elim before [
    | inl same ↦ let own = (eq_iff row.advertiser_id id).1 (sym same) in absurd cc
    | inr (old, found, token) ↦ (old, upsert_token-other row t id e ∙ found, token)
  ]
]

module _ {R : Redis} (prompt : AllResponsive R) (codec : TokenCodec) (outside : Outside)
    (app : AppCredentials) where
  -- tokens are kept, and an advertiser's is set
  abbrev Kept : (access id' : String) → (before after : Tables) → Type 0
  Kept access id' before after =
      (id : String) → (id ≡ id') ⊎ HasToken access id before → HasToken access id after

  abbrev Ends-with : {A : Type 0} (P : A → World R → Type 0) → Result A × World R → Type 0
  Ends-with P p = Run P (λ _ _. Unit {0}) (λ _. ⊥) p

  upsert-Kept :
      (params : UpsertParams) (w : World R)
      → Ends-with
          (λ t v.
            Kept params.access_token params.advertiser_id w.tables v.tables
            × (t.advertiser_id ≡ params.advertiser_id))
          (upsert codec outside params w)
  unfolding upsert new_uuid
  upsert-Kept params w =
      let row = row_of params (outside.uuid w.uuids) w.now in
      Run-bind
        (λ t v.
          Kept params.access_token params.advertiser_id w.tables v.tables
          × (t.advertiser_id ≡ params.advertiser_id))
        _ _ _ _ _ _
        (query-Run _ _ _ outside (upsert_token row) _
          (
            (λ id h. upsert_token-HasToken params.access_token row w.tables id refl h),
            unfold upsert_token in
                merged-advertiser (find_token params.advertiser_id w.tables.tokens) row,
          )
          (λ m. tt) (λ m. tt))
        (λ t v k.
          Run-bind (λ _ v'. Kept params.access_token params.advertiser_id w.tables v'.tables) _ _ _
            _ _ _
            (Run-mono _ _ _ _ _ _ _ _
              (cache_token-Holds prompt codec outside
                (λ tables calls now. Kept params.access_token params.advertiser_id w.tables tables)
                t v k.0)
              (λ _ v' kept. kept) (λ m v' _. tt) (λ v' h. h))
            (λ _ v' kept. return-Run _ _ _ t v' (kept, k.1)))

  store_each-Kept :
      (answer : TikTokTokenResponse) (start : ℕ) (ids : List String) (w : World R)
      → Ends-with
          (λ ts v.
            ((id : String)
              → HasToken answer.access_token id w.tables
              → HasToken answer.access_token id v.tables)
            × All (λ id. HasToken answer.access_token id v.tables) ids
            × (map (λ (t : StoredToken). t.advertiser_id) ts ≡ ids))
          (store_each codec outside app answer start ids w)
  unfolding store_each
  store_each-Kept answer start [] w = return-Run _ _ _ [] w ((λ id h. h), tt, refl)
  store_each-Kept answer start (id ∷ ids) w =
      Run-bind (λ t v. Kept answer.access_token id w.tables v.tables × (t.advertiser_id ≡ id)) _ _ _
        _ _ _
        (upsert-Kept (granted id answer.access_token answer.refresh_token answer.scope start) w)
        (λ t v k.
          Run-bind
            (λ ts v'.
              ((i : String)
                → HasToken answer.access_token i v.tables
                → HasToken answer.access_token i v'.tables)
              × All (λ i. HasToken answer.access_token i v'.tables) ids
              × (map (λ (t : StoredToken). t.advertiser_id) ts ≡ ids))
            _ _ _ _ _ _ (store_each-Kept answer start ids v)
            (λ ts v' (keeps, stored, listed). return-Run _ _ _ (t ∷ ts) v' (
              (λ i h. keeps i (k.0 i (inr h))),
              (keeps id (k.0 id (inl refl)), stored),
              rw (k.1, listed) refl,
            )))

  -- what an exchange that returns has done
  abbrev pub Granted : World R → List StoredToken → World R → Type 0
  Granted w₀ tokens w =
      (answer : TikTokTokenResponse) × (outside.exchange w₀.call_count ≡ reply answer)
      × (answer.code ≡ 0)
      × (map (λ (t : StoredToken). t.advertiser_id) tokens ≡ answer.advertiser_ids)
      × All (λ id. HasToken answer.access_token id w.tables) answer.advertiser_ids

  -- Where no command of Redis hangs, `exchangeAuthCode` returns or throws, whatever Postgres and
  -- TikTok answer. Where it returns, TikTok answered with code 0, the tokens are those of the
  -- advertisers of the answer, in its order, and the row of each of them has the new access token.
  pub exchange_auth_code-Granted :
      (auth_code : String) (w : World R)
      → Ends-with (Granted w) (exchange_auth_code codec outside app auth_code w)
  unfolding exchange_auth_code
  exchange_auth_code-Granted auth_code w =
      Run-bind (λ answer _. outside.exchange w.call_count ≡ reply answer) _ _ _ _ _ _
        (call-Run _ _ _ outside (exchange_call app.tiktok_app_id app.tiktok_app_secret auth_code)
          outside.exchange w (λ a e. e) (λ m. tt))
        (λ answer v e.
          Run-bind (λ _ _. answer.code ≡ 0) _ _ _ _ _ _
            (assert_success-Run (λ _. answer.code ≡ 0) _ _ answer.code answer.message _ v
              (λ zero. zero) tt)
            (λ _ v' zero.
              Run-mono _ _ _ _ _ _ _ _ (store_each-Kept answer v'.now answer.advertiser_ids v')
                (λ ts u (keeps, stored, listed). (answer, e, zero, listed, stored)) (λ m u _. tt)
                (λ u h. h)))
