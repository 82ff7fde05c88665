-- ===== src/Examples/Authorizing.antt =====
-- Tokens, the OAuth states, the callback and the refresher on sample data.
use mathlib.Core.List.{Permᴰ}
use mathlib.Core.List.Permᴰ
use salesforce_tiktok_crm.Base.{
  List, String, ◌+◌, ◌*◌, ◌≡◌, refl, none, some, [], ◌∷◌, ltb, arith, if◌then◌else◌,
}
use salesforce_tiktok_crm.Config.{AppCredentials}
use salesforce_tiktok_crm.Exec.{ok}
use salesforce_tiktok_crm.Exec.Rules.{Run}
use salesforce_tiktok_crm.Redis.Memory.{memory, memory-RedisLaws}
use salesforce_tiktok_crm.Types.Auth.{StoredToken}
use salesforce_tiktok_crm.World.{Outside, World, reply}
use salesforce_tiktok_crm.World.Settled.{AllResponsive}
use salesforce_tiktok_crm.Auth.TokenTable.{UpsertParams, find_token, active_of, row_of}
use salesforce_tiktok_crm.Auth.TokenStore.{
  revived, get_active_token, upsert, revoke, store_state, get_and_delete_state, oauth_state_ttl,
  token_key, state_key,
}
use salesforce_tiktok_crm.Auth.TokenStore.States.{at, store_state-once}
use salesforce_tiktok_crm.Auth.TokenStore.RoundTrip.{
  get_active_token-upsert, get_active_token-revoke,
}
use salesforce_tiktok_crm.Auth.OAuthClient.{exchange_auth_code, get_valid_token}
use salesforce_tiktok_crm.Auth.OAuthClient.Granting.{Granted, exchange_auth_code-Granted}
use salesforce_tiktok_crm.Auth.OAuthClient.Validity.{Valid, NotRefreshed, get_valid_token-Valid}
use salesforce_tiktok_crm.Auth.Refresher.{refresh_all}
use salesforce_tiktok_crm.Auth.Refresher.Accounting.{Tally, active_ids, refresh_all-Tally}
use salesforce_tiktok_crm.Auth.Routes.{CallbackQuery, callback}
use salesforce_tiktok_crm.Auth.Routes.Forgery.{Guarded, callback-Guarded}
use salesforce_tiktok_crm.Examples.Codec.{codec, codec-CodecLaws}
use salesforce_tiktok_crm.Examples.Storing.{services, world, memory-Responsive}

pub memory-AllResponsive : AllResponsive memory
memory-AllResponsive = record {
  responsive = memory-Responsive;
  del = λ k now c h. ground arith;
  getdel = λ k now c h. ground arith;
}

abbrev params : UpsertParams
params = record {
  advertiser_id = "7001";
  access_token = "new";
  refresh_token = "refresh";
  access_token_expires_at = 60;
  refresh_token_expires_at = 90;
  scope = "";
}

get_active_token-upsert_example :
    (get_active_token codec services "7001" (at 50 (upsert codec services params world).1)).0
    ≡ ok (some (revived (active_of (row_of params "id" 0))))
get_active_token-upsert_example =
    get_active_token-upsert codec services memory-RedisLaws codec-CodecLaws memory-Responsive params
      50 world (some (codec.stringify (active_of (row_of params "id" 0)))) (omega arith)
      (omega arith) (omega arith) refl refl refl (unfold find_token token_key in refl)

get_active_token-revoke_example :
    (get_active_token codec services "7001" (at 5000 (revoke codec services "7001" world).1)).0
    ≡ ok none
get_active_token-revoke_example =
    get_active_token-revoke codec services memory-RedisLaws codec-CodecLaws memory-Responsive "7001"
      5000 world none refl refl refl (unfold token_key in refl)

store_state-once_example :
    ((get_and_delete_state codec services "abc"
        (at 5000 (store_state codec services "abc" world).1)).0
      ≡ ok (
          if ltb 5000 (0 + 1000 * oauth_state_ttl)
          then some (record { value = "abc"; redirect_after = none })
          else none))
    × ((get_and_delete_state codec services "abc" (
          at 6000
            (get_and_delete_state codec services "abc"
              (at 5000 (store_state codec services "abc" world).1)).1)).0
        ≡ ok none)
store_state-once_example =
    store_state-once memory-RedisLaws codec services "abc" 5000 6000 world (some "abc") none refl
      (omega arith) refl (unfold state_key in refl) (unfold state_key in refl)

abbrev pub app : AppCredentials
app = record {
  tiktok_app_id = "app";
  tiktok_app_secret = "secret";
  tiktok_redirect_uri = "https://crm";
}

abbrev expiring : StoredToken
expiring = record (row_of params "id" 0) {
  access_token_expires_at = 1000;
  refresh_token_expires_at = 9000;
}

abbrev pub granting : Outside
granting = record services {
  exchange = λ n. reply (record {
    code = 0;
    message = "OK";
    access_token = "access";
    refresh_token = "refresh";
    scope = "";
    advertiser_ids = "7001" ∷ [];
  });
  refresh = λ n. reply (record {
    code = 0;
    message = "OK";
    access_token = "access";
    refresh_token = "refresh";
    scope = "";
  });
}

abbrev expiring_world : World memory
expiring_world = record world { tables = record world.tables { tokens = expiring ∷ [] } }

get_valid_token-Valid_example :
    Run
      (Valid memory-AllResponsive codec granting app memory-RedisLaws "7001" expiring_world)
      (λ _.
        NotRefreshed memory-AllResponsive codec granting app memory-RedisLaws "7001" expiring_world)
      (λ _. ⊥)
      (get_valid_token codec granting app "7001" expiring_world)
get_valid_token-Valid_example =
    get_valid_token-Valid memory-AllResponsive codec granting app memory-RedisLaws "7001"
      expiring_world

refresh_all-Tally_example :
    Run
      (λ s v.
        (order : List String) × Permᴰ order
          (active_ids memory-AllResponsive codec granting app memory-RedisLaws expiring_world)
        × Tally app order s [] v.calls)
      (λ _ v. v.calls ≡ [])
      (λ _. ⊥)
      (refresh_all codec granting app expiring_world)
refresh_all-Tally_example =
    refresh_all-Tally memory-AllResponsive codec granting app memory-RedisLaws expiring_world
      (λ ids. Permᴰ.refl ids)

abbrev waiting : World memory
waiting = (store_state codec granting "abc" world).1

abbrev query : CallbackQuery
query = record { auth_code = some "code"; state = some "abc"; error = none }

callback-Guarded_example :
    Run
      (λ _.
        Guarded memory-RedisLaws memory-AllResponsive codec granting app
          (λ s. s)
          (λ s. s)
          query
          waiting)
      (λ _.
        Guarded memory-RedisLaws memory-AllResponsive codec granting app
          (λ s. s)
          (λ s. s)
          query
          waiting)
      (λ _. ⊥)
      (callback codec granting app (λ s. s) (λ s. s) query waiting)
callback-Guarded_example =
    callback-Guarded memory-RedisLaws memory-AllResponsive codec granting app (λ s. s) (λ s. s)
      query waiting

exchange_auth_code-Granted_example :
    Run
      (Granted memory-AllResponsive codec granting app world)
      (λ _ _. Unit {0})
      (λ _. ⊥)
      (exchange_auth_code codec granting app "code" world)
exchange_auth_code-Granted_example =
    exchange_auth_code-Granted memory-AllResponsive codec granting app "code" world
