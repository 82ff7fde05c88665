-- ===== src/Auth/TokenStore.antt =====
-- auth/token-store.ts. The clocks of Postgres and of the process are one.
pub mod Effects
pub mod Lookup
pub mod RoundTrip
pub mod Sources
pub mod States
use Prim.Native.String
use salesforce_tiktok_crm.Base.{
  ℕ, String, Bool, true, false, Option, none, some, List, [], ◌∷◌, map, ltb, leb, ◌==◌, ◌*◌, ◌≡◌,
  ◌≢◌, if◌then◌else◌,
}
use salesforce_tiktok_crm.Text.{non_empty}
use salesforce_tiktok_crm.Exec.{Exec, return, throw, recover, ◌>>=◌, ◌>>◌}
use salesforce_tiktok_crm.Redis.{Redis}
use salesforce_tiktok_crm.Types.Auth.{iso_text, time_of, StoredToken, ActiveToken}
use salesforce_tiktok_crm.Auth.TokenTable.{
  UpsertParams, find_token, upsert_token, unexpired, remove_token, latest_active, active_of, row_of,
  select_active,
}
use salesforce_tiktok_crm.World.{Tables, Outside, World, query, command}
use salesforce_tiktok_crm.EventLog.{new_uuid}

-- `JSON.stringify` of an active token, and `JSON.parse`, which is `none` where it throws.
pub record TokenCodec : Type 0 where
  pub stringify : ActiveToken → String
  pub parse : String → Option ActiveToken

-- A token that has gone through JSON: its date has become a text.
abbrev pub revived : ActiveToken → ActiveToken
revived t = record t { expires_at = iso_text (time_of t.expires_at) }

-- Documented behaviour: a printed token parses back, with the ISO text of its date in the date's
-- place, and is not the empty text.
pub record CodecLaws (codec : TokenCodec) : Type 0 where
  pub parse-stringify : (t : ActiveToken) → codec.parse (codec.stringify t) ≡ some (revived t)
  pub not_empty : (t : ActiveToken) → codec.stringify t ≢ ""

unfoldable pub token_key : String → String
token_key advertiser_id = String.◌++◌ "tiktok:token:" advertiser_id

abbrev pub token_cache_ttl : ℕ
token_cache_ttl = 23 * 60 * 60

unfoldable pub state_key : String → String
state_key state = String.◌++◌ "tiktok:oauth:state:" state

abbrev pub oauth_state_ttl : ℕ
oauth_state_ttl = 10 * 60

-- what `getAndDeleteState` returns
pub record FoundState : Type 0 where
  pub value : String
  pub redirect_after : Option String

-- `redirectAfter` is never set
abbrev pub found_state : Option String → Option FoundState
found_state none = none
found_state (some String.[]) = none
found_state (some (String.◌∷◌ c s)) =
    some (record { value = String.◌∷◌ c s; redirect_after = none })

module _ {R : Redis} (codec : TokenCodec) (outside : Outside) where
  -- an error of Redis is ignored
  unfoldable pub cache_token : StoredToken → Exec (World R) (Unit {0})
  unfolding command
  cache_token token w =
      recover
        (command (
          R.set_ex (token_key token.advertiser_id) (codec.stringify (active_of token))
            token_cache_ttl w.now))
        (λ _. return tt) w

  -- a cached token that has expired is deleted
  unfoldable pub check_expiry : String → ActiveToken → Exec (World R) (Option ActiveToken)
  unfolding command
  check_expiry id token w =
      (if leb (time_of token.expires_at) w.now
          then command (R.del (token_key id) w.now) >> return none
          else return (some token))
        w

  abbrev pub parsed : Option ActiveToken → Exec (World R) ActiveToken
  parsed none = throw "SyntaxError"
  parsed (some t) = return t

  unfoldable pub read_cached : String → Option String → Exec (World R) (Option ActiveToken)
  unfolding check_expiry
  read_cached id none = return none
  read_cached id (some String.[]) = return none
  read_cached id (some (String.◌∷◌ c s)) = do
    token ← parsed (codec.parse (String.◌∷◌ c s))
    check_expiry id token

  -- an error is a miss
  unfoldable pub get_from_cache : String → Exec (World R) (Option ActiveToken)
  unfolding command read_cached
  get_from_cache id w =
      recover (do raw ← command (R.get (token_key id) w.now); read_cached id raw) (λ _. return none)
        w

  unfoldable pub upsert : UpsertParams → Exec (World R) StoredToken
  unfolding new_uuid query upsert_token cache_token
  upsert params w =
      (do
        id ← new_uuid outside
        token ← query outside (upsert_token (row_of params id w.now))
        cache_token token
        return token)
        w

  -- the cache is warmed again while the access token is valid
  unfoldable pub rewarm : StoredToken → Exec (World R) (Unit {0})
  unfolding cache_token
  rewarm token w =
      (if ltb w.now token.access_token_expires_at then cache_token token else return tt) w

  unfoldable pub from_table : Option StoredToken → Exec (World R) (Option ActiveToken)
  unfolding rewarm
  from_table none = return none
  from_table (some token) = do rewarm token; return (some (active_of token))

  unfoldable pub from_cache_or_table :
      String → Option ActiveToken → Exec (World R) (Option ActiveToken)
  unfolding from_table query find_token unexpired
  from_cache_or_table id (some token) = return (some token)
  from_cache_or_table id none = do
    row ← λ w. query outside (select_active id w.now) w
    from_table row

  unfoldable pub get_active_token : String → Exec (World R) (Option ActiveToken)
  unfolding get_from_cache from_cache_or_table
  get_active_token id = do cached ← get_from_cache id; from_cache_or_table id cached

  unfoldable pub get_stored_token : String → Exec (World R) (Option StoredToken)
  unfolding query find_token
  get_stored_token id = query outside (λ t. (find_token id t.tokens, t))

  unfoldable pub list_active_advertiser_ids : Exec (World R) (List String)
  unfolding query latest_active
  list_active_advertiser_ids w =
      query outside
        (λ t. (map (λ (row : StoredToken). row.advertiser_id) (latest_active w.now t.tokens), t)) w

  unfoldable pub revoke : String → Exec (World R) (Unit {0})
  unfolding query remove_token command
  revoke id w =
      (do
        query outside (λ t. (tt, record t { tokens = remove_token id t.tokens }))
        command (R.del (token_key id) w.now))
        w

  unfoldable pub store_state : String → Exec (World R) (Unit {0})
  unfolding command
  store_state state w = command (R.set_ex (state_key state) state oauth_state_ttl w.now) w

  unfoldable pub get_and_delete_state : String → Exec (World R) (Option FoundState)
  unfolding command
  get_and_delete_state state w =
      (do value ← command (R.getdel (state_key state) w.now); return (found_state value)) w
