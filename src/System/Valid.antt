-- ===== src/System/Valid.antt =====
-- What holds of the tables, the requests and the jobs at every moment, and that each statement
-- keeps it.
use salesforce_tiktok_crm.Base.{String, List, [], All, All-map}
use salesforce_tiktok_crm.Types.Auth.{StoredToken}
use salesforce_tiktok_crm.World.{Tables, Request, Job}
use salesforce_tiktok_crm.Auth.TokenTable.{upsert_token}
use salesforce_tiktok_crm.System.Stable.{Stable}
use salesforce_tiktok_crm.System.Safe.{Safe}
use salesforce_tiktok_crm.System.Keys.{
  Distinct, log_keys, set_keys, token_keys, insert_row-Distinct, update_rows-Distinct,
  upsert_row-Distinct, upsert_token-Distinct, remove_token-Distinct,
}
use salesforce_tiktok_crm.System.Logged.{
  HasRow, InLog, InLog-mono, insert_row-HasRow, update_rows-HasRow,
}

-- A table has one row at most for its key, and every event that was sent or enqueued has a row in
-- the log.
pub record Valid (t : Tables) (requests : List Request) (jobs : List Job) : Type 0 where
  pub log_distinct : Distinct (log_keys t.event_log)
  pub sets_distinct : Distinct (set_keys t.event_sets)
  pub tokens_distinct : Distinct (token_keys t.tokens)
  pub requests_logged : All (λ (r : Request). InLog r.payload t.event_log) requests
  pub jobs_logged : All (λ (j : Job). InLog j.job_data.payload t.event_log) jobs

abbrev pub empty_tables : Tables
empty_tables = record { event_log = []; event_sets = []; tokens = [] }

pub Valid-empty : Valid empty_tables [] []
Valid-empty = record {
  log_distinct = tt;
  sets_distinct = tt;
  tokens_distinct = tt;
  requests_logged = tt;
  jobs_logged = tt;
}

-- a log that lost no event
Valid-log :
    (t t' : Tables) (rs : List Request) (js : List Job)
    → Distinct (log_keys t'.event_log)
    → Distinct (set_keys t'.event_sets)
    → Distinct (token_keys t'.tokens)
    → ((id : String) → HasRow t.event_log id → HasRow t'.event_log id)
    → Valid t rs js
    → Valid t' rs js
Valid-log t t' rs js log sets tokens keeps v = record {
  log_distinct = log;
  sets_distinct = sets;
  tokens_distinct = tokens;
  requests_logged =
      All-map _ _ rs (λ r h. InLog-mono t.event_log t'.event_log keeps r.payload h)
        v.requests_logged;
  jobs_logged =
      All-map _ _ js (λ j h. InLog-mono t.event_log t'.event_log keeps j.job_data.payload h)
        v.jobs_logged;
}

upsert_token-Valid :
    (row : StoredToken) (t : Tables) (rs : List Request) (js : List Job)
    → Valid t rs js
    → Valid (upsert_token row t).1 rs js
unfolding upsert_token
upsert_token-Valid row t rs js v =
    Valid-log t _ rs js v.log_distinct v.sets_distinct
      (upsert_token-Distinct row t v.tokens_distinct) (λ id h. h) v

pub with_requests :
    (t : Tables) (rs rs' : List Request) (js : List Job)
    → Valid t rs js
    → All (λ (r : Request). InLog r.payload t.event_log) rs'
    → Valid t rs' js
with_requests t rs rs' js v h = record {
  log_distinct = v.log_distinct;
  sets_distinct = v.sets_distinct;
  tokens_distinct = v.tokens_distinct;
  requests_logged = h;
  jobs_logged = v.jobs_logged;
}

pub with_jobs :
    (t : Tables) (rs : List Request) (js js' : List Job)
    → Valid t rs js
    → All (λ (j : Job). InLog j.job_data.payload t.event_log) js'
    → Valid t rs js'
with_jobs t rs js js' v h = record {
  log_distinct = v.log_distinct;
  sets_distinct = v.sets_distinct;
  tokens_distinct = v.tokens_distinct;
  requests_logged = v.requests_logged;
  jobs_logged = h;
}

pub Valid-Stable : Stable Valid
Valid-Stable = record {
  insert = λ row t rs js v.
      Valid-log t _ rs js (insert_row-Distinct row t.event_log v.log_distinct) v.sets_distinct
        v.tokens_distinct (insert_row-HasRow row t.event_log) v;
  update = λ id status response error now t rs js v.
      Valid-log t _ rs js
        (update_rows-Distinct id status response error now t.event_log v.log_distinct)
        v.sets_distinct v.tokens_distinct
        (update_rows-HasRow id status response error now t.event_log) v;
  upsert_set = λ row t rs js v.
      Valid-log t _ rs js v.log_distinct (upsert_row-Distinct row t.event_sets v.sets_distinct)
        v.tokens_distinct (λ id h. h) v;
  upsert_token = upsert_token-Valid;
  remove_token = λ id t rs js v.
      Valid-log t _ rs js v.log_distinct v.sets_distinct
        (remove_token-Distinct id t.tokens v.tokens_distinct) (λ j h. h) v;
}

pub Valid-Safe : Safe Valid
Valid-Safe = record {
  stable = Valid-Stable;
  post =
      λ payload token resends t rs js known v. with_requests t rs _ js v (known, v.requests_logged);
  enqueue = λ payload now t rs js known v. with_jobs t rs js _ v (known, v.jobs_logged);
  logged = λ t rs js v. v.jobs_logged;
}
