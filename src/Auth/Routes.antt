-- ===== src/Auth/Routes.antt =====
-- auth/oauth-routes.ts. A handler that throws outside its own `try` is a promise that is
-- rejected, which no one handles.
pub mod Answering
pub mod Flow
pub mod Forms
pub mod Forgery
use Prim.Native.String
use salesforce_tiktok_crm.Base.{
  ℕ, String, Bool, true, false, Option, none, some, List, [], ◌∷◌, map, length, ◌==◌, if◌then◌else◌,
}
use salesforce_tiktok_crm.Text.{truthy_text}
use salesforce_tiktok_crm.Text.Decimal.{show}
use salesforce_tiktok_crm.Config.{AppCredentials}
use salesforce_tiktok_crm.Exec.{Exec, return, throw, recover, ◌>>=◌, ◌>>◌}
use salesforce_tiktok_crm.Redis.{Redis}
use salesforce_tiktok_crm.Types.Auth.{StoredToken}
use salesforce_tiktok_crm.Http.{HttpResponse, json, redirect, string, number, strings}
use salesforce_tiktok_crm.World.{Outside, World}
use salesforce_tiktok_crm.Auth.TokenStore.{
  TokenCodec, FoundState, store_state, get_and_delete_state, list_active_advertiser_ids, revoke,
}
use salesforce_tiktok_crm.Auth.OAuthClient.{
  build_authorization_url, generate_state_token, verify_state, exchange_auth_code,
  refresh_access_token,
}

abbrev pub failure : ℕ → String → HttpResponse
failure status message = json status (("error", string message) ∷ [])

-- `req.query` of the callback, where it holds texts
pub record CallbackQuery : Type 0 where
  pub auth_code : Option String
  pub state : Option String
  pub error : Option String

-- What Express makes of a query string: its values are texts, or, as for `state[x]=…`, the state is
-- an array or an object. `${state}` is then some text, or throws, where `shown` is none.
pub data QueryForm : Type 0 where
  texts : CallbackQuery → QueryForm
  object_state : (auth_code error shown : Option String) → QueryForm

abbrev pub advertiser_ids_of : List StoredToken → List String
advertiser_ids_of = map (λ (t : StoredToken). t.advertiser_id)

abbrev pub authorized : List StoredToken → HttpResponse
authorized tokens = json 200 (
    ("advertiser_ids", strings (advertiser_ids_of tokens))
    ∷ (
      "message",
      string (
          String.◌++◌ "Successfully authorized "
            (String.◌++◌ (show (length tokens)) " advertiser account(s)")),
    )
    ∷ [])

-- `ids.join(',')`
unfoldable pub join_ids : List String → String
join_ids [] = ""
join_ids (x ∷ []) = x
join_ids (x ∷ y ∷ ys) = String.◌++◌ x (String.◌++◌ "," (join_ids (y ∷ ys)))

abbrev pub after_exchange : Option String → List StoredToken → HttpResponse
after_exchange none tokens = authorized tokens
after_exchange (some String.[]) tokens = authorized tokens
after_exchange (some (String.◌∷◌ c s)) tokens = redirect (
    String.◌++◌ (String.◌∷◌ c s)
      (String.◌++◌ "?authorized=true&advertiser_ids=" (join_ids (advertiser_ids_of tokens))))

abbrev pub is_denied : Option String → Bool
is_denied none = false
is_denied (some e) = e == "access_denied"

abbrev pub refused_object : Option FoundState → HttpResponse
refused_object none = failure 400 "State expired or not found — restart OAuth flow"
refused_object (some stored) = failure 403 "State mismatch — possible CSRF attack"

abbrev pub status_answer : List String → HttpResponse
status_answer ids =
    json 200 (("authorized_advertisers", strings ids) ∷ ("count", number (length ids)) ∷ [])

abbrev pub refreshed_answer : String → StoredToken → HttpResponse
refreshed_answer id token = json 200 (
    ("status", string "refreshed")
    ∷ ("advertiser_id", string id)
    ∷ ("expires_at", number token.access_token_expires_at)
    ∷ [])

abbrev pub revoked_answer : String → HttpResponse
revoked_answer id = json 200 (("status", string "revoked") ∷ ("advertiser_id", string id) ∷ [])

module _ {R : Redis} (codec : TokenCodec) (outside : Outside) (app : AppCredentials)
    (digest encode : String → String) where
  -- GET /auth/tiktok
  unfoldable pub begin : Exec (World R) HttpResponse
  begin =
      recover
        (do
          state ← generate_state_token outside
          store_state codec outside state
          return (redirect (build_authorization_url encode app app.tiktok_redirect_uri state)))
        (λ _. return (failure 500 "Failed to initiate OAuth flow"))

  -- the callback once the state is verified
  unfoldable pub exchange_and_answer : String → FoundState → Exec (World R) HttpResponse
  exchange_and_answer auth_code stored =
      recover
        (do
          tokens ← exchange_auth_code codec outside app auth_code
          return (after_exchange stored.redirect_after tokens))
        (λ _. return (failure 500 "Token exchange failed"))

  unfoldable pub on_verified : Bool → String → FoundState → Exec (World R) HttpResponse
  unfolding exchange_and_answer
  on_verified true auth_code stored = exchange_and_answer auth_code stored
  on_verified false auth_code stored = return (failure 403 "State mismatch — possible CSRF attack")

  -- `try { verifyState(…) } catch { 403 }`, then the exchange
  unfoldable pub verify_and_exchange :
      String → String → Option FoundState → Exec (World R) HttpResponse
  unfolding on_verified
  verify_and_exchange auth_code state none =
      return (failure 400 "State expired or not found — restart OAuth flow")
  verify_and_exchange auth_code state (some stored) = do
    verified ← recover (verify_state digest state stored.value >> return true) (λ _. return false)
    on_verified verified auth_code stored

  unfoldable pub with_state : String → Option String → Exec (World R) HttpResponse
  unfolding verify_and_exchange
  with_state auth_code none = return (failure 400 "Missing state in callback")
  with_state auth_code (some state) = do
    stored ← get_and_delete_state codec outside state
    verify_and_exchange auth_code state stored

  unfoldable pub with_code : Option String → Option String → Exec (World R) HttpResponse
  unfolding with_state
  with_code none state = return (failure 400 "Missing auth_code in callback")
  with_code (some auth_code) state = with_state auth_code state

  -- GET /auth/tiktok/callback
  unfoldable pub callback : CallbackQuery → Exec (World R) HttpResponse
  unfolding with_code
  callback query =
      if is_denied query.error
      then return (failure 400 "Authorization denied by user")
      else with_code (truthy_text query.auth_code) (truthy_text query.state)

  -- `getAndDeleteState` with such a state; a hash of it throws, so that `verifyState` does
  unfoldable pub with_object_state : (auth_code shown : Option String) → Exec (World R) HttpResponse
  with_object_state none shown = return (failure 400 "Missing auth_code in callback")
  with_object_state (some code) none = throw "Cannot convert object to primitive value"
  with_object_state (some code) (some key) = do
    stored ← get_and_delete_state codec outside key
    return (refused_object stored)

  -- the callback for any query
  unfoldable pub answer_callback : QueryForm → Exec (World R) HttpResponse
  unfolding callback with_object_state
  answer_callback (texts query) = callback query
  answer_callback (object_state auth_code error shown) =
      if is_denied error
      then return (failure 400 "Authorization denied by user")
      else with_object_state (truthy_text auth_code) shown

  -- GET /auth/tiktok/status
  unfoldable pub status : Exec (World R) HttpResponse
  status =
      recover (do ids ← list_active_advertiser_ids codec outside; return (status_answer ids))
        (λ _. return (failure 500 "Failed to fetch authorized advertisers"))

  -- POST /auth/tiktok/refresh/:advertiserId
  unfoldable pub refresh_route : String → Exec (World R) HttpResponse
  refresh_route id =
      recover
        (do
          updated ← refresh_access_token codec outside app id
          return (refreshed_answer id updated))
        (λ message. return (failure 400 message))

  -- POST /auth/tiktok/revoke/:advertiserId
  unfoldable pub revoke_route : String → Exec (World R) HttpResponse
  revoke_route id =
      recover (revoke codec outside id >> return (revoked_answer id))
        (λ _. return (failure 500 "Revocation failed"))
