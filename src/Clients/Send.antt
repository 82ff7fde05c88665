-- ===== src/Clients/Send.antt =====
-- clients/tiktok-api-client.ts, `sendEvents`. No other call takes tokens while one waits, and a wait of the rate limiter moves the time on by
-- exactly what it asks for; `acquire` has fuel for two rounds, and hangs where that is not enough.
use Prim.Native.String
use salesforce_tiktok_crm.Base.{ℕ, suc, String, Option, none, some, ◌∷◌, nat_eq, if◌then◌else◌}
use salesforce_tiktok_crm.Text.Decimal.{show}
use salesforce_tiktok_crm.Config.{Env}
use salesforce_tiktok_crm.Types.{TikTokEventsPayload, TikTokApiResponse}
use salesforce_tiktok_crm.Exec.{Exec, ok, hangs, return, throw, ◌>>=◌, ◌>>◌}
use salesforce_tiktok_crm.Redis.{Redis}
use salesforce_tiktok_crm.World.{Outside, World, HttpOutcome, response, failure}
use salesforce_tiktok_crm.Clients.RateLimiter.{RateLimiter, acquire_from}

abbrev no_token : String
no_token =
    "No token resolver provided and TIKTOK_ACCESS_TOKEN is not set. Complete OAuth at /auth/tiktok or set TIKTOK_ACCESS_TOKEN."

module _ {R : Redis} where
  abbrev pub acquired : Option (RateLimiter × ℕ) → Exec (World R) (Unit {0})
  acquired none w = (hangs, w)
  acquired (some (l, later)) w = (ok tt, record w { limiter = l; now = later })

  unfoldable pub acquire : Exec (World R) (Unit {0})
  acquire w = acquired (acquire_from 2 w.now w.limiter) w

  abbrev pub token_or_throw : Option String → Exec (World R) String
  token_or_throw none = throw no_token
  token_or_throw (some String.[]) = throw no_token
  token_or_throw (some (String.◌∷◌ c s)) = return (String.◌∷◌ c s)

  -- the resolver that the constructor falls back to
  unfoldable pub static_token : Env → Exec (World R) String
  static_token env = token_or_throw env.tiktok_access_token

  abbrev pub posted : HttpOutcome → Exec (World R) TikTokApiResponse
  posted (response r) = return r
  posted (failure message) = throw message

  -- `this.http.post('/event/track/', payload, …)`, with axios-retry behind it
  unfoldable pub post : Outside → String → TikTokEventsPayload → Exec (World R) TikTokApiResponse
  post outside token payload w = posted (outside.post w.posts) (record w {
    requests =
        record { access_token = token; payload = payload; resends = outside.resends w.posts }
        ∷ w.requests;
    posts = suc w.posts;
  })

  unfoldable pub check_code : TikTokApiResponse → Exec (World R) TikTokApiResponse
  check_code result =
      if nat_eq result.code 0
      then return result
      else throw (
          String.◌++◌ "TikTok API returned non-zero code: "
            (String.◌++◌ (show result.code) (String.◌++◌ " — " result.message)))

  unfoldable pub send_events :
      Outside → Exec (World R) String → TikTokEventsPayload → Exec (World R) TikTokApiResponse
  send_events outside resolve_token payload = do
    acquire
    token ← resolve_token
    result ← post outside token payload
    check_code result
