-- ===== src/Queue/Handles.antt =====
-- queue/retry-queue.ts: the queue, its worker and its events, of which the module holds one each.
pub mod Closing
use salesforce_tiktok_crm.Base.{
  ℕ, suc, String, Bool, true, false, Option, none, some, List, [], ◌∷◌, if◌then◌else◌,
}
use salesforce_tiktok_crm.Config.{Env}
use salesforce_tiktok_crm.Exec.{Exec, ok, return, throw, ◌>>=◌, ◌>>◌}

pub record QueueOptions : Type 0 where
  pub attempts : ℕ
  -- of an exponential backoff
  pub backoff_delay : ℕ
  pub keep_completed : ℕ
  pub keep_failed : ℕ

pub record WorkerOptions : Type 0 where
  pub concurrency : ℕ
  pub limiter_max : ℕ
  pub limiter_duration : ℕ

-- The three variables of the module.
pub data Handle : Type 0 where
  queue worker queue_events : Handle

pub record Handles : Type 0 where
  pub queue_handle : Option QueueOptions
  pub worker_handle : Option WorkerOptions
  pub events_handle : Bool
  -- what was constructed and closed, the last one first
  pub opened : List Handle
  pub closed : List Handle

abbrev pub no_handles : Handles
no_handles = record {
  queue_handle = none;
  worker_handle = none;
  events_handle = false;
  opened = [];
  closed = [];
}

abbrev pub queue_options : Env → QueueOptions
queue_options env = record {
  attempts = env.tiktok_max_retries;
  backoff_delay = env.tiktok_initial_retry_delay_ms;
  keep_completed = 1000;
  keep_failed = 5000;
}

abbrev pub worker_options : Env → WorkerOptions
worker_options env = record {
  concurrency = 5;
  limiter_max = env.tiktok_rate_limit_rps;
  limiter_duration = 1000;
}

abbrev pub queue_or_new : Env → Option QueueOptions → Exec Handles QueueOptions
queue_or_new env (some q) h = return q h
queue_or_new env none h =
    return (queue_options env)
      (record h { queue_handle = some (queue_options env); opened = queue ∷ h.opened })

-- `getQueue`
unfoldable pub get_queue : Env → Exec Handles QueueOptions
get_queue env h = queue_or_new env h.queue_handle h

abbrev pub worker_or_new : Env → Option WorkerOptions → Exec Handles WorkerOptions
worker_or_new env (some w) h = return w h
worker_or_new env none h =
    return (worker_options env)
      (record h { worker_handle = some (worker_options env); opened = worker ∷ h.opened })

-- `startWorker`
unfoldable pub start_worker : Env → Exec Handles WorkerOptions
start_worker env h = worker_or_new env h.worker_handle h

abbrev pub events_or_new : Bool → Exec Handles (Unit {0})
events_or_new true h = return tt h
events_or_new false h =
    return tt (record h { events_handle = true; opened = queue_events ∷ h.opened })

-- `attachQueueEvents`
unfoldable pub attach_queue_events : Exec Handles (Unit {0})
attach_queue_events h = events_or_new h.events_handle h

abbrev pub close_answered : Handle → Option String → Exec Handles (Unit {0})
close_answered x none h = return tt (record h { closed = x ∷ h.closed })
close_answered x (some message) h = throw message h

abbrev pub is_some {ℓ} : {A : Type ℓ} → Option A → Bool
is_some none = false
is_some (some a) = true

-- `if (x) await x.close()`, given the error of each `close`, or none
unfoldable pub close_if : (Handle → Option String) → Handle → Bool → Exec Handles (Unit {0})
close_if close x false = return tt
close_if close x true = close_answered x (close x)

unfoldable pub drain_queue : (Handle → Option String) → Exec Handles (Unit {0})
unfolding close_if
drain_queue close h =
    (do
      close_if close worker (is_some h.worker_handle)
      close_if close queue (is_some h.queue_handle)
      close_if close queue_events h.events_handle)
      h

-- A call of one of the three functions that open.
pub data HandleCall : Type 0 where
  get start attach : HandleCall

abbrev pub call_handle : Env → HandleCall → Handles → Handles
unfolding get_queue start_worker attach_queue_events
call_handle env get h = (get_queue env h).1
call_handle env start h = (start_worker env h).1
call_handle env attach h = (attach_queue_events h).1

unfoldable pub call_handles : Env → List HandleCall → Handles → Handles
unfolding call_handle
call_handles env [] h = h
call_handles env (c ∷ cs) h = call_handles env cs (call_handle env c h)
