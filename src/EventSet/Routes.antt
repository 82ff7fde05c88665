-- ===== src/EventSet/Routes.antt =====
-- event-set/event-set-routes.ts
pub mod Answering
use Prim.Native.String
use salesforce_tiktok_crm.Base.{ℕ, String, Option, none, some, List, [], ◌∷◌, length, if◌then◌else◌}
use salesforce_tiktok_crm.Text.{contains, non_empty, trim}
use salesforce_tiktok_crm.Text.Decimal.{show}
use salesforce_tiktok_crm.Config.{Env, AppCredentials}
use salesforce_tiktok_crm.Exec.{Exec, return, recover, ◌>>=◌, ◌>>◌}
use salesforce_tiktok_crm.Redis.{Redis}
use salesforce_tiktok_crm.Types.{FieldValue, text, other}
use salesforce_tiktok_crm.Types.EventSets.{
  CrmEventSet, ProvisionResult, selected_existing, created_new, multiple_found, error,
}
use salesforce_tiktok_crm.Http.{HttpResponse, json, null, string, number, event_set, event_sets}
use salesforce_tiktok_crm.World.{Outside, World}
use salesforce_tiktok_crm.Auth.TokenStore.{TokenCodec}
use salesforce_tiktok_crm.Auth.OAuthClient.{get_valid_token}
use salesforce_tiktok_crm.EventSet.{resolve}
use salesforce_tiktok_crm.EventSet.Manager.{list, create, provision, select}

infixr 5 ◌<>◌
abbrev ◌<>◌ : String → String → String
a <> b = String.◌++◌ a b

abbrev pub failure_details : ℕ → String → String → HttpResponse
failure_details status what details =
    json status (("error", string what) ∷ ("details", string details) ∷ [])

abbrev pub failure : ℕ → String → HttpResponse
failure status what = json status (("error", string what) ∷ [])

unfoldable pub provision_answer : String → ProvisionResult → HttpResponse
provision_answer id (created_new created) = json 201 (
    ("status", string "created_new")
    ∷ ("message", string "No existing event set found — a new one was created automatically.")
    ∷ ("event_set", event_set created)
    ∷ ("next_step", null)
    ∷ [])
provision_answer id (selected_existing existing) = json 200 (
    ("status", string "selected_existing")
    ∷ ("message", string "One existing event set found — automatically selected.")
    ∷ ("event_set", event_set existing)
    ∷ ("next_step", null)
    ∷ [])
provision_answer id (multiple_found sets) = json 200 (
    ("status", string "multiple_found")
    ∷ (
      "message",
      string (
          show (length sets)
          <> " event sets found. Select one using POST /event-sets/"
          <> id
          <> "/select."),
    )
    ∷ ("event_sets", event_sets sets)
    ∷ (
      "next_step",
      string ("POST /event-sets/" <> id <> "/select with { \"event_set_id\": \"<id>\" }"),
    )
    ∷ [])
provision_answer id (error message) =
    json 500 (("status", string "error") ∷ ("message", string message) ∷ [])

unfoldable pub provision_failure : String → String → HttpResponse
provision_failure id message =
    if contains "OAuth authorization required" message
    then json 401 (
        ("error", string "not_authorized")
        ∷ (
          "message",
          string ("Advertiser " <> id <> " has not completed OAuth. Visit /auth/tiktok first."),
        )
        ∷ [])
    else failure_details 500 "Provisioning failed" message

unfoldable pub select_failure : String → HttpResponse
select_failure message =
    if contains "not found" message
    then failure 404 message
    else failure_details 500 "Failed to select event set" message

-- the guard on `name`: a string that is not blank
unfoldable pub valid_name : Option FieldValue → Option String
valid_name none = none
valid_name (some other) = none
valid_name (some (text s)) = non_empty (trim s)

-- the guard on `event_set_id`: a string that is not empty
unfoldable pub valid_id : Option FieldValue → Option String
valid_id none = none
valid_id (some other) = none
valid_id (some (text s)) = non_empty s

abbrev list_answer : String → List CrmEventSet → HttpResponse
list_answer id sets = json 200 (
    ("advertiser_id", string id)
    ∷ ("event_sets", event_sets sets)
    ∷ ("count", number (length sets))
    ∷ [])

abbrev pub set_answer : ℕ → String → CrmEventSet → HttpResponse
set_answer status message s =
    json status (("message", string message) ∷ ("event_set", event_set s) ∷ [])

abbrev active_answer : String → String → HttpResponse
active_answer id set =
    json 200 (("advertiser_id", string id) ∷ ("active_event_set_id", string set) ∷ [])

module _ {R : Redis} (codec : TokenCodec) (outside : Outside) (app : AppCredentials) (env : Env)
    (day : ℕ → String) where
  -- POST /event-sets/:advertiserId/provision
  unfoldable pub provision_route : String → Option String → Exec (World R) HttpResponse
  unfolding provision_answer provision_failure
  provision_route id event_set_name =
      recover
        (do
          access_token ← get_valid_token codec outside app id
          result ← provision outside env day id access_token event_set_name
          return (provision_answer id result))
        (λ message. return (provision_failure id message))

  -- GET /event-sets/:advertiserId
  unfoldable pub list_route : String → Exec (World R) HttpResponse
  list_route id =
      recover
        (do
          access_token ← get_valid_token codec outside app id
          sets ← list outside env day id access_token
          return (list_answer id sets))
        (λ message. return (failure_details 500 "Failed to list event sets" message))

  unfoldable pub create_named : String → Option String → Exec (World R) HttpResponse
  create_named id none = return (failure 400 "Request body must include a non-empty \"name\" field")
  create_named id (some name) =
      recover
        (do
          access_token ← get_valid_token codec outside app id
          created ← create outside env day id access_token (some name)
          select outside env day id created.event_set_id access_token
          return (set_answer 201 "CRM event set created and set as active." created))
        (λ message. return (failure_details 500 "Failed to create event set" message))

  -- POST /event-sets/:advertiserId
  unfoldable pub create_route : String → Option FieldValue → Exec (World R) HttpResponse
  unfolding valid_name create_named
  create_route id name = create_named id (valid_name name)

  unfoldable pub select_valid : String → Option String → Exec (World R) HttpResponse
  unfolding select_failure
  select_valid id none = return (failure 400 "Request body must include \"event_set_id\"")
  select_valid id (some event_set_id) =
      recover
        (do
          access_token ← get_valid_token codec outside app id
          selected ← select outside env day id event_set_id access_token
          return (set_answer 200 "Event set selected and stored as active." selected))
        (λ message. return (select_failure message))

  -- POST /event-sets/:advertiserId/select
  unfoldable pub select_route : String → Option FieldValue → Exec (World R) HttpResponse
  unfolding valid_id select_valid
  select_route id event_set_id = select_valid id (valid_id event_set_id)

  -- GET /event-sets/:advertiserId/active
  unfoldable pub active_route : String → Exec (World R) HttpResponse
  active_route id =
      recover (do set ← resolve outside env id; return (active_answer id set))
        (λ message. return (failure_details 404 "No active event set found" message))
