-- ===== src/Auth/OAuthClient.antt =====
-- auth/tiktok-oauth.ts. SHA-256 and the encoding of `URLSearchParams` are parameters. The time moves
-- on while a call is under way.
pub mod Checking
pub mod Exchanging
pub mod Granting
pub mod Validity
use Prim.Native.String
use salesforce_tiktok_crm.Base.{
  ℕ, ◌+◌, ◌*◌, String, Bool, Option, none, some, List, [], ◌∷◌, nat_eq, leb, ◌==◌, if◌then◌else◌,
  suc,
}
use salesforce_tiktok_crm.Text.Decimal.{show}
use salesforce_tiktok_crm.Config.{AppCredentials}
use salesforce_tiktok_crm.Exec.{Exec, return, throw, ◌>>=◌, ◌>>◌}
use salesforce_tiktok_crm.Redis.{Redis}
use salesforce_tiktok_crm.Types.Auth.{
  time_of, StoredToken, ActiveToken, TikTokTokenResponse, TikTokRefreshResponse,
}
use salesforce_tiktok_crm.World.{Outside, World, exchange_call, refresh_call, call}
use salesforce_tiktok_crm.Auth.TokenTable.{UpsertParams}
use salesforce_tiktok_crm.Auth.TokenStore.{TokenCodec, upsert, get_active_token, get_stored_token}

-- 24 hours and 365 days, in milliseconds
abbrev pub access_token_ttl : ℕ
access_token_ttl = 24 * 60 * 60 * 1000

abbrev pub refresh_token_ttl : ℕ
refresh_token_ttl = 365 * 24 * 60 * 60 * 1000

abbrev pub one_hour : ℕ
one_hour = 60 * 60 * 1000

infixr 5 ◌<>◌
abbrev ◌<>◌ : String → String → String
a <> b = String.◌++◌ a b

unfoldable pub build_authorization_url :
    (String → String) → AppCredentials → String → String → String
build_authorization_url encode app redirect_uri state =
    "https://ads.tiktok.com/marketing_api/auth?app_id="
    <> encode app.tiktok_app_id
    <> "&redirect_uri="
    <> encode redirect_uri
    <> "&state="
    <> encode state

abbrev expired_grant : String → String
expired_grant id = "Refresh token for advertiser " <> id <> " has expired — user must re-authorize"

module _ {R : Redis} where
  -- shared with event-set/crm-event-set-manager.ts, which has the same text
  unfoldable pub assert_success : ℕ → String → String → Exec (World R) (Unit {0})
  assert_success code message context =
      if nat_eq code 0
      then return tt
      else throw ("TikTok " <> context <> " failed: code=" <> show code <> " message=" <> message)

  unfoldable pub generate_state_token : Outside → Exec (World R) String
  generate_state_token outside w =
      return (outside.random w.randoms) (record w { randoms = suc w.randoms })

  unfoldable pub verify_state : (String → String) → String → String → Exec (World R) (Unit {0})
  verify_state digest received expected =
      if digest received == digest expected
      then return tt
      else throw "OAuth state mismatch — possible CSRF attack"

-- what is stored of an answer, at the time `start`
abbrev pub granted : String → String → String → String → ℕ → UpsertParams
granted id access refresh scope start = record {
  advertiser_id = id;
  access_token = access;
  refresh_token = refresh;
  access_token_expires_at = start + access_token_ttl;
  refresh_token_expires_at = start + refresh_token_ttl;
  scope = scope;
}

module _ {R : Redis} (codec : TokenCodec) (outside : Outside) (app : AppCredentials) where
  -- the loop over `advertiser_ids`
  unfoldable pub store_each :
      TikTokTokenResponse → ℕ → List String → Exec (World R) (List StoredToken)
  store_each response start [] = return []
  store_each response start (id ∷ ids) = do
    token ←
        upsert codec outside
          (granted id response.access_token response.refresh_token response.scope start)
    rest ← store_each response start ids
    return (token ∷ rest)

  unfoldable pub exchange_auth_code : String → Exec (World R) (List StoredToken)
  unfolding call assert_success store_each
  exchange_auth_code auth_code = do
    response ←
        call outside (exchange_call app.tiktok_app_id app.tiktok_app_secret auth_code)
          outside.exchange
    assert_success response.code response.message "Token exchange"
    λ w. store_each response w.now response.advertiser_ids w

  unfoldable pub refresh_with : String → StoredToken → ℕ → Exec (World R) StoredToken
  unfolding call assert_success
  refresh_with id stored start = do
    response ←
        call outside (refresh_call app.tiktok_app_id app.tiktok_app_secret stored.refresh_token)
          outside.refresh
    assert_success response.code response.message "Token refresh"
    upsert codec outside
        (granted id response.access_token response.refresh_token response.scope start)

  unfoldable pub refresh_stored : String → Option StoredToken → Exec (World R) StoredToken
  unfolding refresh_with
  refresh_stored id none w = throw ("No token record found for advertiser_id: " <> id) w
  refresh_stored id (some stored) w =
      (if leb stored.refresh_token_expires_at w.now
          then throw (expired_grant id)
          else refresh_with id stored w.now)
        w

  unfoldable pub refresh_access_token : String → Exec (World R) StoredToken
  unfolding get_stored_token refresh_stored
  refresh_access_token id = do stored ← get_stored_token codec outside id; refresh_stored id stored

  unfoldable pub use_active : String → Option ActiveToken → Exec (World R) String
  use_active id none w =
      throw ("No active token for advertiser " <> id <> " — OAuth authorization required") w
  use_active id (some active) w =
      (if leb (time_of active.expires_at) (w.now + one_hour)
          then (refresh_access_token id >>= λ refreshed. return refreshed.access_token)
          else return active.access_token)
        w

  unfoldable pub get_valid_token : String → Exec (World R) String
  unfolding use_active
  get_valid_token id = do active ← get_active_token codec outside id; use_active id active
