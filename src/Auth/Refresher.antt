-- ===== src/Auth/Refresher.antt =====
-- auth/proactive-refresher.ts, `refreshAll`. `Promise.allSettled` starts all the tasks at once, and
-- they push in the order in which they complete, which is a parameter of the model. In that order
-- they run one after another here; in the program they interleave where they wait.
pub mod Accounting
pub mod Timer
use salesforce_tiktok_crm.Base.{
  ℕ, ◌+◌, String, Bool, Option, none, some, List, [], ◌∷◌, ltb, if◌then◌else◌,
}
use salesforce_tiktok_crm.Config.{AppCredentials}
use salesforce_tiktok_crm.Exec.{Exec, return, recover, ◌>>=◌, ◌>>◌}
use salesforce_tiktok_crm.Redis.{Redis}
use salesforce_tiktok_crm.Types.Auth.{time_of, ActiveToken}
use salesforce_tiktok_crm.World.{Outside, World}
use salesforce_tiktok_crm.Auth.TokenStore.{TokenCodec, get_active_token, list_active_advertiser_ids}
use salesforce_tiktok_crm.Auth.OAuthClient.{one_hour, refresh_access_token}

pub record RefreshSummary : Type 0 where
  pub refreshed : List String
  pub failed : List String

-- What a task does to the two lists: nothing, or a push to one of them.
pub data TaskEnd : Type 0 where
  skipped refreshed_one failed_one : TaskEnd

abbrev pub push : TaskEnd → String → RefreshSummary → RefreshSummary
push skipped id s = s
push refreshed_one id s = record s { refreshed = id ∷ s.refreshed }
push failed_one id s = record s { failed = id ∷ s.failed }

module _ {R : Redis} (codec : TokenCodec) (outside : Outside) (app : AppCredentials) where
  unfoldable pub refresh_if_expiring : String → Option ActiveToken → Exec (World R) TaskEnd
  refresh_if_expiring id none w = return skipped w
  refresh_if_expiring id (some active) w =
      (if ltb (w.now + one_hour) (time_of active.expires_at)
          then return skipped
          else refresh_access_token codec outside app id >> return refreshed_one)
        w

  unfoldable pub refresh_task : String → Exec (World R) TaskEnd
  unfolding refresh_if_expiring
  refresh_task id =
      recover (do active ← get_active_token codec outside id; refresh_if_expiring id active)
        (λ _. return failed_one)

  unfoldable pub refresh_each : List String → Exec (World R) RefreshSummary
  refresh_each [] = return (record { refreshed = []; failed = [] })
  refresh_each (id ∷ ids) = do
    end ← refresh_task id
    rest ← refresh_each ids
    return (push end id rest)

  unfoldable pub refresh_all : Exec (World R) RefreshSummary
  unfolding refresh_each
  refresh_all = do
    ids ← list_active_advertiser_ids codec outside
    refresh_each (outside.completion ids)
