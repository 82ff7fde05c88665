-- ===== src/Examples/Storing.antt =====
-- Deduplication, the event log, the event sets and the pipeline on sample data.
use salesforce_tiktok_crm.Base.{
  ℕ, zero, suc, ◌+◌, ◌*◌, String, true, false, ◌≡◌, ◌≢◌, refl, none, some, List, [], ◌∷◌, ◌==◌,
  eq_iff, arith, ltb,
}
use salesforce_tiktok_crm.Text.Case.{ascii_lower}
use salesforce_tiktok_crm.Config.{Env, default_env}
use salesforce_tiktok_crm.Types.{
  named, standard, submit_form, TikTokEventsPayload, TikTokApiResponse, pending,
}
use salesforce_tiktok_crm.Exec.{ok}
use salesforce_tiktok_crm.Redis.Memory.{memory, memory-RedisLaws, empty}
use salesforce_tiktok_crm.Deduplication.{is_duplicate, dedup_key}
use salesforce_tiktok_crm.Deduplication.Interleaving.{Check, checked, is_duplicate-interleaved}
use salesforce_tiktok_crm.Deduplication.Window.{is_duplicate-window}
use salesforce_tiktok_crm.World.{
  job_added, LogRow, World, Outside, Fate, answered, refused, response, no_reply,
}
use salesforce_tiktok_crm.Filter.Triggers.{created}
use salesforce_tiktok_crm.Queue.{new_job}
use salesforce_tiktok_crm.Clients.Send.{send_events, static_token, acquire, post, check_code}
use salesforce_tiktok_crm.Clients.RateLimiter.{acquire_from, round}
use salesforce_tiktok_crm.Pipeline.{Setup, process, send_or_enqueue}
use salesforce_tiktok_crm.World.Settled.{Responsive}
use salesforce_tiktok_crm.Pipeline.Accounting.{event_at, Accounted, process-Accounted}
use salesforce_tiktok_crm.Pipeline.Redelivery.{send_or_enqueue-twice}
use salesforce_tiktok_crm.Examples.{change, lead}

is_duplicate-window_example :
    ((is_duplicate memory default_env "a" 0 empty).0 ≡ ok false)
    × ((is_duplicate memory default_env "a" 5000 (is_duplicate memory default_env "a" 0 empty).1).0
        ≡ ok (ltb 5000 (0 + 1000 * 172800)))
is_duplicate-window_example =
    is_duplicate-window memory memory-RedisLaws default_env "a" 0 5000 empty true false refl
      (omega arith) refl (unfold dedup_key in refl)

abbrev others : List Check
others = record { event_id = "b"; time = 10 } ∷ record { event_id = "a"; time = 20 } ∷ []

is_duplicate-interleaved_example :
    (is_duplicate memory default_env "a" 5000 (
      checked memory memory-RedisLaws default_env others
        (is_duplicate memory default_env "a" 0 empty).1)).0
    ≡ ok true
is_duplicate-interleaved_example =
    is_duplicate-interleaved memory memory-RedisLaws default_env "a" 0 5000 others empty false refl
      (omega arith, (omega arith, omega arith)) (omega arith)
      (unfold checked is_duplicate dedup_key in refl)

text_ne : (a b : String) → (a == b) ≡ false → a ≢ b
text_ne a b h e = ground (arith, (eq_iff a b).1 e)

abbrev payload : TikTokEventsPayload
payload = record { event_source = "crm"; event_source_id = "set"; data_entries = [] }

abbrev pub row : LogRow
row = record {
  id = "1";
  event_id = "e1";
  event_name = "Contact";
  lead_id = "00Q1";
  salesforce_replay_id = 7;
  tiktok_payload = payload;
  status = pending;
  tiktok_response = none;
  attempt_count = 1;
  error = none;
  created_at = 0;
  updated_at = 0;
}

abbrev api_response : TikTokApiResponse
api_response = record { code = 0; message = "OK"; request_id = "r"; batch_upload_status = none }

-- Services that answer.
abbrev pub services : Outside
services = record {
  statement = λ n. answered;
  post = λ n. response api_response;
  resends = λ n. 0;
  add = λ n. job_added;
  completion = λ ids. ids;
  uuid = λ n. "id";
  random = λ n. "state";
  exchange = λ n. no_reply "timeout";
  refresh = λ n. no_reply "timeout";
  list_sets = λ n. no_reply "timeout";
  create_set = λ n. no_reply "timeout";
  latency = λ n. 0;
}

-- Services of which the database refuses the first statement.
abbrev failing_first : ℕ → Fate
failing_first zero = refused "connection lost"
failing_first (suc n) = answered

abbrev unreliable : Outside
unreliable = record services { statement = failing_first }

abbrev pub world : World memory
world = record {
  redis = empty;
  tables = record { event_log = []; event_sets = []; tokens = [] };
  statements = 0;
  requests = [];
  posts = 0;
  jobs = [];
  adds = 0;
  uuids = 0;
  randoms = 0;
  calls = [];
  call_count = 0;
  limiter = record { tokens = 10; last_refill = 0; max_tokens = 10; refill_interval_ms = 1000 };
  worker_limiter = record {
    tokens = 10;
    last_refill = 0;
    max_tokens = 10;
    refill_interval_ms = 1000;
  };
  now = 0;
}

abbrev pub with_token : Env
with_token = record default_env {
  tiktok_access_token = some "token";
  tiktok_crm_event_set_id = some "set";
}

abbrev pub setup_with : Outside → Setup
setup_with outside = record {
  env = with_token;
  outside = outside;
  lower = ascii_lower;
  digest = λ s. s;
  date_ms = λ s. some 1705314600000;
  has_event_set_manager = true;
}

pub memory-Responsive : Responsive memory
memory-Responsive = record {
  set_nx = λ k v ttl now c h. ground arith;
  set_ex = λ k v ttl now c h. ground arith;
  get = λ k now c h. ground arith;
}

process-Accounted_example :
    Accounted
      (setup_with services)
      lead
      (event_at (setup_with services) (change "CREATE" []) lead (named (standard submit_form)) 0)
      world
      (process (setup_with services) (change "CREATE" []) lead world)
process-Accounted_example =
    process-Accounted (setup_with services) (change "CREATE" []) lead (named (standard submit_form))
      world (created refl refl refl)

abbrev sent_world : World memory
sent_world = (send_events unreliable (static_token with_token) payload world).1

sending :
    send_events unreliable (static_token with_token) payload world ≡ (ok api_response, sent_world)
unfolding send_events static_token acquire post check_code acquire_from round
sending = refl

refused_first : failing_first sent_world.statements ≡ refused "connection lost"
unfolding send_events static_token acquire post check_code acquire_from round
refused_first = refl

send_or_enqueue-twice_example :
    ((send_or_enqueue (setup_with unreliable) "e1" payload world).0 ≡ ok tt)
    × ((send_or_enqueue (setup_with unreliable) "e1" payload world).1.jobs
        ≡ new_job payload sent_world.now ∷ sent_world.jobs)
send_or_enqueue-twice_example =
    send_or_enqueue-twice (setup_with unreliable) "e1" payload world sent_world api_response
      "connection lost" sending refused_first refl refl
