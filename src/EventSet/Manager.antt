-- ===== src/EventSet/Manager.antt =====
-- event-set/crm-event-set-manager.ts: `list`, `create`, `provision` and `select`. The day that
-- `toISOString().slice(0, 10)` gives is a parameter.
pub mod Provisioning
pub mod Selecting
pub mod Steps
use Prim.Native.String
use salesforce_tiktok_crm.Base.{
  ℕ, ◌/◌, String, Bool, Option, none, some, List, [], ◌∷◌, ◌==◌, if◌then◌else◌,
}
use salesforce_tiktok_crm.Config.{Env}
use salesforce_tiktok_crm.Exec.{Exec, return, throw, recover, ◌>>=◌, ◌>>◌}
use salesforce_tiktok_crm.Redis.{Redis}
use salesforce_tiktok_crm.Types.EventSets.{
  CrmEventSet, CrmCreateResponse, ProvisionResult, selected_existing, created_new, multiple_found,
  error,
}
use salesforce_tiktok_crm.World.{
  Outside, World, auto_created, auto_selected, manually_selected, list_call, create_call, call,
}
use salesforce_tiktok_crm.Auth.OAuthClient.{assert_success}
use salesforce_tiktok_crm.EventSet.Storage.{store}

abbrev or_empty : Option (List CrmEventSet) → List CrmEventSet
or_empty none = []
or_empty (some sets) = sets

-- the parameter's default
abbrev pub event_set_name : (ℕ → String) → ℕ → Option String → String
event_set_name day now none = String.◌++◌ "Salesforce CRM Events — " (day now)
event_set_name day now (some name) = name

abbrev pub created_set : String → CrmCreateResponse → ℕ → CrmEventSet
created_set advertiser_id response now = record {
  event_set_id = response.event_set_id;
  name = response.name;
  advertiser_id = advertiser_id;
  create_time = now / 1000;
  update_time = now / 1000;
  event_count = none;
}

-- `sets.find((s) => s.event_set_id === eventSetId)`
unfoldable pub find_set : String → List CrmEventSet → Option CrmEventSet
find_set id [] = none
find_set id (s ∷ ss) = if s.event_set_id == id then some s else find_set id ss

module _ {R : Redis} (outside : Outside) (env : Env) (day : ℕ → String) where
  unfoldable pub list : String → String → Exec (World R) (List CrmEventSet)
  unfolding call assert_success
  list advertiser_id access_token = do
    response ← call outside (list_call access_token advertiser_id) outside.list_sets
    assert_success response.code response.message "CRM event set list"
    return (or_empty response.list)

  unfoldable pub create : String → String → Option String → Exec (World R) CrmEventSet
  unfolding call assert_success
  create advertiser_id access_token name w =
      (do
        response ←
            call outside (create_call access_token advertiser_id (event_set_name day w.now name))
              outside.create_set
        assert_success response.code response.message "CRM event set create"
        λ w'. return (created_set advertiser_id response w'.now) w')
        w

  unfoldable pub provision_sets :
      String → String → Option String → List CrmEventSet → Exec (World R) ProvisionResult
  unfolding create store
  provision_sets advertiser_id access_token name [] = do
    created ← create advertiser_id access_token name
    store outside env advertiser_id created auto_created
    return (created_new created)
  provision_sets advertiser_id access_token name (s ∷ []) = do
    store outside env advertiser_id s auto_selected
    return (selected_existing s)
  provision_sets advertiser_id access_token name (s ∷ t ∷ ss) = return (multiple_found (s ∷ t ∷ ss))

  unfoldable pub provision : String → String → Option String → Exec (World R) ProvisionResult
  unfolding list provision_sets
  provision advertiser_id access_token name =
      recover
        (do
          existing ← list advertiser_id access_token
          provision_sets advertiser_id access_token name existing)
        (λ message. return (error message))

  unfoldable pub select_found : String → String → Option CrmEventSet → Exec (World R) CrmEventSet
  unfolding store
  select_found advertiser_id event_set_id none = throw (
      String.◌++◌ "Event set "
        (String.◌++◌ event_set_id (String.◌++◌ " not found for advertiser " advertiser_id)))
  select_found advertiser_id event_set_id (some selected) = do
    store outside env advertiser_id selected manually_selected
    return selected

  unfoldable pub select : String → String → String → Exec (World R) CrmEventSet
  unfolding list find_set select_found
  select advertiser_id event_set_id access_token = do
    sets ← list advertiser_id access_token
    select_found advertiser_id event_set_id (find_set event_set_id sets)
