-- ===== src/Auth/Refresher/Accounting.antt =====
-- What a round of the refresher reports, and the calls that it made.
use mathlib.Core.List.{Permᴰ}
use salesforce_tiktok_crm.Base.{
  ◌+◌, String, ◌≡◌, refl, Option, none, some, List, [], ◌∷◌, map, Bool-cases, inl, inr, ◌⊎◌, ltb,
}
use salesforce_tiktok_crm.Config.{AppCredentials}
use salesforce_tiktok_crm.Exec.{Result, return}
use salesforce_tiktok_crm.Exec.Rules.{Run, Run-bind, Run-recover, Run-mono}
use salesforce_tiktok_crm.Redis.{Redis, RedisLaws}
use salesforce_tiktok_crm.Types.Auth.{time_of, StoredToken, ActiveToken}
use salesforce_tiktok_crm.World.{ApiCall, refresh_call, Outside, World}
use salesforce_tiktok_crm.World.Running.{return-Run, query-Run}
use salesforce_tiktok_crm.World.Settled.{AllResponsive}
use salesforce_tiktok_crm.Auth.TokenTable.{latest_active}
use salesforce_tiktok_crm.Auth.TokenStore.{TokenCodec, list_active_advertiser_ids}
use salesforce_tiktok_crm.Auth.TokenStore.Effects.{get_active_token-Holds}
use salesforce_tiktok_crm.Auth.OAuthClient.{one_hour}
use salesforce_tiktok_crm.Auth.OAuthClient.Validity.{Same, NotRefreshed, refresh_access_token-Run}
use salesforce_tiktok_crm.Auth.Refresher.{
  RefreshSummary, TaskEnd, skipped, refreshed_one, failed_one, push, refresh_if_expiring,
  refresh_task, refresh_each, refresh_all,
}

-- one call, with some refresh token
abbrev pub OneRefresh : AppCredentials → (before after : List ApiCall) → Type 0
OneRefresh app before after =
    (token : String) × (after ≡ refresh_call app.tiktok_app_id app.tiktok_app_secret token ∷ before)

-- The calls of a task: one if it refreshed, one at most if it failed, none if it skipped.
abbrev pub TaskCalls : AppCredentials → TaskEnd → (before after : List ApiCall) → Type 0
TaskCalls app skipped before after = after ≡ before
TaskCalls app refreshed_one before after = OneRefresh app before after
TaskCalls app failed_one before after = (after ≡ before) ⊎ OneRefresh app before after

-- Each entry of a list of advertisers adds to one list of the summary at most, in that order, and the
-- calls are those of the tasks, one after another.
pub data Tally (app : AppCredentials)
    : List String → RefreshSummary → (before after : List ApiCall) → Type 0 where
  no_task : (c : List ApiCall) → Tally app [] (record { refreshed = []; failed = [] }) c c
  task :
      (end : TaskEnd) (id : String) (ids : List String) (s : RefreshSummary)
      (before between after : List ApiCall)
      → TaskCalls app end before between
      → Tally app ids s between after
      → Tally app (id ∷ ids) (push end id s) before after

module _ {R : Redis} (prompt : AllResponsive R) (codec : TokenCodec) (outside : Outside)
    (app : AppCredentials) (laws : RedisLaws R) where
  -- returns, with P
  abbrev pub Returns : {A : Type 0} (P : A → World R → Type 0) → Result A × World R → Type 0
  Returns P p = Run P (λ _ _. ⊥) (λ _. ⊥) p

  abbrev TaskEnded : World R → TaskEnd → World R → Type 0
  TaskEnded w₀ end w = TaskCalls app end w₀.calls w.calls

  -- a task before its `catch`
  abbrev Attempted : World R → Result TaskEnd × World R → Type 0
  Attempted w₀ p = Run (TaskEnded w₀) (λ _. TaskEnded w₀ failed_one) (λ _. ⊥) p

  attempt : (w₀ w : World R) (end : TaskEnd) → TaskEnded w₀ end w → Attempted w₀ (return end w)
  attempt w₀ w end k = return-Run _ _ _ end w k

  refresh_if_expiring-Run :
      (id : String) (o : Option ActiveToken) (w₀ w : World R)
      → Same prompt codec outside app laws w₀ w.tables w.calls w.now
      → Attempted w₀ (refresh_if_expiring codec outside app id o w)
  unfolding refresh_if_expiring
  refresh_if_expiring-Run id none w₀ w same = attempt w₀ w skipped same.1
  refresh_if_expiring-Run id (some a) w₀ w same =
      elim (Bool-cases (ltb (w.now + one_hour) (time_of a.expires_at))) [
        | inl e ↦ rw e (attempt w₀ w skipped same.1)
        | inr e ↦ rw e (
            Run-bind (λ _ v. OneRefresh app w₀.calls v.calls) _ _ _ _ _ _
              (Run-mono _ _ _ _ _ _ _ _
                (refresh_access_token-Run prompt codec outside app laws id w₀ w same)
                (λ row v k. (k.0.0.refresh_token, k.0.3)) (λ m v k. not_refreshed v k) (λ v k. k))
              (λ _ v k. attempt w₀ v refreshed_one k))
      ]
    where
      not_refreshed :
          (v : World R)
          → NotRefreshed prompt codec outside app laws id w₀ v
          → TaskEnded w₀ failed_one v
      not_refreshed v (inl same) = inl same
      not_refreshed v (inr (t, found, usable, spent)) = inr (t.refresh_token, spent)

  refresh_task-Run :
      (id : String) (w : World R) → Returns (TaskEnded w) (refresh_task codec outside app id w)
  unfolding refresh_task
  refresh_task-Run id w =
      Run-recover _ _ (λ _. TaskEnded w failed_one) _ _ _ _
        (Run-bind (λ _ v. Same prompt codec outside app laws w v.tables v.calls v.now) (TaskEnded w)
          (λ _. TaskEnded w failed_one) (λ _. ⊥) _ _ _
          (Run-mono _ _ _ _ _ _ _ _
            (get_active_token-Holds prompt codec outside (Same prompt codec outside app laws w) id w
              (refl, refl, refl))
            (λ a v k. k) (λ m v k. inl k.1) (λ v k. k))
          (λ active v k. refresh_if_expiring-Run id active w v k))
        (λ m v k. return-Run _ _ _ failed_one v k)

  refresh_each-Tally :
      (ids : List String) (w : World R)
      → Returns (λ s v. Tally app ids s w.calls v.calls) (refresh_each codec outside app ids w)
  unfolding refresh_each
  refresh_each-Tally [] w = return-Run _ _ _ _ w (no_task w.calls)
  refresh_each-Tally (id ∷ ids) w =
      Run-bind (TaskEnded w) _ _ _ _ _ _ (refresh_task-Run id w) (λ end v k.
        Run-bind (λ s v'. Tally app ids s v.calls v'.calls) _ _ _ _ _ _ (refresh_each-Tally ids v)
          (λ s v' t.
            return-Run _ _ _ (push end id s) v' (task end id ids s w.calls v.calls v'.calls k t)))

  -- the advertisers that are active, the one updated last first
  abbrev pub active_ids : World R → List String
  active_ids w =
      map (λ (row : StoredToken). row.advertiser_id) (latest_active w.now w.tables.tokens)

  -- Where no command of Redis hangs, a round returns, whatever Postgres and TikTok answer, unless the
  -- statement that lists the active advertisers fails, when it throws without a call. Where the
  -- tasks complete in any order of the advertisers listed, the summary has each of those in one of
  -- its lists at most, in an order of them: a refreshed one cost one call, a failed one at most one,
  -- and one that is in neither list none.
  pub refresh_all-Tally :
      (w : World R)
      → ((ids : List String) → Permᴰ (outside.completion ids) ids)
      → Run
          (λ s v.
            (order : List String) × Permᴰ order (active_ids w) × Tally app order s w.calls v.calls)
          (λ _ v. v.calls ≡ w.calls)
          (λ _. ⊥)
          (refresh_all codec outside app w)
  unfolding refresh_all list_active_advertiser_ids
  refresh_all-Tally w in_order =
      Run-bind (λ ids v. (ids ≡ active_ids w) × (v.calls ≡ w.calls)) _ _ _ _ _ _
        (query-Run _ _ _ outside
          (λ t. (map (λ (row : StoredToken). row.advertiser_id) (latest_active w.now t.tokens), t))
          w (refl, refl) (λ m. refl) (λ m. refl))
        (λ ids v k.
          Run-mono _ _ _ _ _ _ _ _ (refresh_each-Tally (outside.completion ids) v)
            (λ s v' t. (outside.completion ids, rw (← k.0) (in_order ids), rw (← k.1) t))
            (λ m v' k'. absurd k') (λ v' k'. k'))
