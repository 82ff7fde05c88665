-- ===== src/Examples/Serving.antt =====
-- The whole server on sample data.
use salesforce_tiktok_crm.Base.{◌≡◌, refl, Option, none, some, [], ◌∷◌, arith}
use salesforce_tiktok_crm.Text.Decimal.{show}
use salesforce_tiktok_crm.Types.{event_value_text}
use salesforce_tiktok_crm.Redis.Memory.{memory, memory-RedisLaws}
use salesforce_tiktok_crm.World.{World, LogRow, command, query}
use salesforce_tiktok_crm.EventLog.{
  find_row, insert, new_uuid, insert_row, update_status, update_rows,
}
use salesforce_tiktok_crm.Pipeline.{
  process, process_result, process_passed, resolve_event_set, check_duplicate, deliver,
  send_or_enqueue, canonical_event, event_time, advertiser_of, resolve_advertiser_id,
}
use salesforce_tiktok_crm.Filter.{evaluate}
use salesforce_tiktok_crm.EventSet.{
  resolve, get_cached, from_cache, find_event_set, env_fallback_id, cache_key,
}
use salesforce_tiktok_crm.Deduplication.{is_duplicate, dedup_key}
use salesforce_tiktok_crm.Clients.Send.{acquire, static_token, post, check_code, send_events}
use salesforce_tiktok_crm.Clients.RateLimiter.{acquire_from, round, refill}
use salesforce_tiktok_crm.Normalization.Hasher.{event_id, event_key, sha256, timestamp_text}
use salesforce_tiktok_crm.Auth.TokenStore.{state_key, store_state}
use salesforce_tiktok_crm.Auth.OAuthClient.{build_authorization_url, generate_state_token}
use salesforce_tiktok_crm.Auth.Routes.{CallbackQuery, texts, begin, callback}
use salesforce_tiktok_crm.Auth.Routes.Flow.{Finishes, redeemed, begin-callback}
use salesforce_tiktok_crm.Listener.{
  Listener, RawMessage, message, handle_raw_message, fetch_and_deliver, fetch_lead, retrieve,
  deliver_lead,
}
use salesforce_tiktok_crm.Server.{receive, on_event}
use salesforce_tiktok_crm.Server.Routing.{Application, HttpRequest, status}
use salesforce_tiktok_crm.Server.Serving.{serve}
use salesforce_tiktok_crm.Server.Answering.{Handled, serve-Handled}
use salesforce_tiktok_crm.System.Steps.{Reaches, here, after, request, share}
use salesforce_tiktok_crm.System.Steps.{message as received}
use salesforce_tiktok_crm.System.Valid.{Valid}
use salesforce_tiktok_crm.System.Reaching.{IsFresh, Reaches-Valid}
use salesforce_tiktok_crm.System.Durable.{Kept, Reaches-Kept}
use salesforce_tiktok_crm.Examples.{change}
use salesforce_tiktok_crm.Examples.Codec.{codec}
use salesforce_tiktok_crm.Examples.Storing.{row, setup_with, world}
use salesforce_tiktok_crm.Examples.Authorizing.{app, granting, memory-AllResponsive}
use salesforce_tiktok_crm.Examples.Listening.{salesforce, listener}

abbrev application : Application
application = record {
  setup = setup_with granting;
  app = app;
  codec = codec;
  encode = λ s. s;
  day = λ now. "2024-01-15";
  timestamp = λ now. "2024-01-15T10:00:00.000Z";
  queue_counts = λ now. none;
}

-- GET /auth/tiktok/status
abbrev status_request : HttpRequest
status_request = record {
  route = status;
  advertiser_id = "";
  query = texts (record { auth_code = none; state = none; error = none });
  name = none;
  event_set_id = none;
  event_set_name = none;
}

serve-Handled_example :
    Handled memory-RedisLaws memory-AllResponsive application status status_request world
      (serve application status_request world)
serve-Handled_example =
    serve-Handled memory-RedisLaws memory-AllResponsive application status_request world

abbrev first : RawMessage
first = message (
    let event = change "CREATE" [] in
    record event { header = record event.header { record_ids = some ("00Q1" ∷ []) } })

abbrev after_message : Listener (World memory)
after_message = (receive salesforce (setup_with granting) first listener).1

abbrev after_request : Listener (World memory)
after_request = share (serve application status_request) after_message

fresh : IsFresh listener.shared
fresh = record { tables = refl; requests = refl; jobs = refl }

one_step : Reaches salesforce application listener after_message
one_step = after listener after_message here (received first listener)

two_steps : Reaches salesforce application listener after_request
two_steps = after after_message after_request one_step (request status_request after_message)

Reaches-Valid_example :
    Valid after_request.shared.tables after_request.shared.requests after_request.shared.jobs
Reaches-Valid_example = Reaches-Valid salesforce application listener after_request fresh two_steps

abbrev row_or_first : Option LogRow → LogRow
row_or_first none = row
row_or_first (some r) = r

-- the row of the event that the message gave
abbrev logged : LogRow
logged = row_or_first (find_row "00Q1:SubmitForm:1705314600" after_message.shared.tables.event_log)

logged-found :
    find_row "00Q1:SubmitForm:1705314600" after_message.shared.tables.event_log ≡ some logged
unfolding handle_raw_message fetch_and_deliver fetch_lead retrieve deliver_lead receive on_event
    process process_result process_passed resolve_event_set check_duplicate deliver send_or_enqueue
    canonical_event event_time advertiser_of resolve_advertiser_id evaluate resolve get_cached
    from_cache find_event_set env_fallback_id cache_key command query is_duplicate dedup_key
    find_row insert new_uuid insert_row update_status update_rows acquire static_token post
    check_code send_events acquire_from round refill event_id event_key sha256 timestamp_text
    event_value_text show
logged-found = refl

Reaches-Kept_example :
    Kept "00Q1:SubmitForm:1705314600" logged after_request.shared.tables.event_log
Reaches-Kept_example =
    Reaches-Kept salesforce application listener after_message after_request _ logged fresh one_step
      logged-found (after after_message after_request here (request status_request after_message))

-- GET /auth/tiktok, and the callback five minutes later
abbrev begun : World memory
begun = (begin codec granting app (λ s. s) (λ s. s) world).1

abbrev back : World memory
back = record begun { now = 300000 }

abbrev answer_query : CallbackQuery
answer_query = record { auth_code = some "code"; state = some "state"; error = none }

begin-callback_example :
    (build_authorization_url (λ s. s) app app.tiktok_redirect_uri "state"
      ≡ build_authorization_url (λ s. s) app app.tiktok_redirect_uri "state")
    × Finishes memory-RedisLaws memory-AllResponsive codec granting app
        (λ s. s)
        (λ s. s)
        "code"
        (redeemed memory-RedisLaws memory-AllResponsive codec granting app
          (λ s. s)
          (λ s. s)
          "state"
          back)
        (callback codec granting app (λ s. s) (λ s. s) answer_query back)
begin-callback_example =
    begin-callback memory-RedisLaws memory-AllResponsive codec granting app (λ s. s) (λ s. s)
      answer_query "code" (build_authorization_url (λ s. s) app app.tiktok_redirect_uri "state")
      (some "state") world back refl (unfold begin generate_state_token store_state in refl) refl
      refl refl refl (omega arith) (omega arith)
      (unfold state_key begin generate_state_token store_state in refl)
