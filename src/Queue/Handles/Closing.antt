-- ===== src/Queue/Handles/Closing.antt =====
-- What was opened is closed.
use salesforce_tiktok_crm.Base.{
  ℕ, suc, ◌≤◌, ◌≡◌, refl, ◌∙◌, ap, String, Bool, true, false, Option, none, some, List, [], ◌∷◌,
  arith, if◌then◌else◌,
}
use salesforce_tiktok_crm.Config.{Env}
use salesforce_tiktok_crm.Exec.{ok}
use salesforce_tiktok_crm.Queue.Handles.{
  QueueOptions, WorkerOptions, Handle, queue, worker, queue_events, Handles, no_handles,
  queue_or_new, worker_or_new, events_or_new, is_some, close_if, drain_queue, HandleCall, get,
  start, attach, get_queue, start_worker, attach_queue_events, call_handle, call_handles,
}

abbrev same : Handle → Handle → Bool
same queue queue = true
same worker worker = true
same queue_events queue_events = true
same _ _ = false

-- How often a handle is in the list.
abbrev pub count : Handle → List Handle → ℕ
count x [] = 0
count x (y ∷ ys) = let rest = count x ys in if same x y then suc rest else rest

abbrev as_nat : Bool → ℕ
as_nat true = 1
as_nat false = 0

-- whether a variable of the module holds something
abbrev held : Handle → Handles → ℕ
held queue h = as_nat (is_some h.queue_handle)
held worker h = as_nat (is_some h.worker_handle)
held queue_events h = as_nat h.events_handle

-- A handle was opened once if its variable holds it, and never otherwise.
abbrev Once : Handles → Type 0
Once h = (x : Handle) → count x h.opened ≡ held x h

queue_or_new-Once :
    (env : Env) (o : Option QueueOptions) (h : Handles)
    → h.queue_handle ≡ o
    → Once h
    → Once (queue_or_new env o h).1
queue_or_new-Once env (some q) h e once x = once x
queue_or_new-Once env none h e once queue = ap suc (once queue ∙ rw e refl)
queue_or_new-Once env none h e once worker = once worker
queue_or_new-Once env none h e once queue_events = once queue_events

worker_or_new-Once :
    (env : Env) (o : Option WorkerOptions) (h : Handles)
    → h.worker_handle ≡ o
    → Once h
    → Once (worker_or_new env o h).1
worker_or_new-Once env (some w) h e once x = once x
worker_or_new-Once env none h e once worker = ap suc (once worker ∙ rw e refl)
worker_or_new-Once env none h e once queue = once queue
worker_or_new-Once env none h e once queue_events = once queue_events

events_or_new-Once :
    (b : Bool) (h : Handles) → h.events_handle ≡ b → Once h → Once (events_or_new b h).1
events_or_new-Once true h e once x = once x
events_or_new-Once false h e once queue_events = ap suc (once queue_events ∙ rw e refl)
events_or_new-Once false h e once queue = once queue
events_or_new-Once false h e once worker = once worker

call_handle-Once : (env : Env) (c : HandleCall) (h : Handles) → Once h → Once (call_handle env c h)
unfolding call_handle get_queue start_worker attach_queue_events
call_handle-Once env get h once = queue_or_new-Once env h.queue_handle h refl once
call_handle-Once env start h once = worker_or_new-Once env h.worker_handle h refl once
call_handle-Once env attach h once = events_or_new-Once h.events_handle h refl once

-- nothing is closed before the drain
call_handle-closed :
    (env : Env) (c : HandleCall) (h : Handles) → (call_handle env c h).closed ≡ h.closed
unfolding call_handle get_queue start_worker attach_queue_events
call_handle-closed env get h = by_handle h.queue_handle
  where
    by_handle : (o : Option QueueOptions) → (queue_or_new env o h).1.closed ≡ h.closed
    by_handle none = refl
    by_handle (some q) = refl
call_handle-closed env start h = by_handle h.worker_handle
  where
    by_handle : (o : Option WorkerOptions) → (worker_or_new env o h).1.closed ≡ h.closed
    by_handle none = refl
    by_handle (some w) = refl
call_handle-closed env attach h = by_handle h.events_handle
  where
    by_handle : (b : Bool) → (events_or_new b h).1.closed ≡ h.closed
    by_handle true = refl
    by_handle false = refl

no_handles-Once : Once no_handles
no_handles-Once queue = refl
no_handles-Once worker = refl
no_handles-Once queue_events = refl

call_handles-Once :
    (env : Env) (cs : List HandleCall) (h : Handles)
    → Once h
    → h.closed ≡ []
    → Once (call_handles env cs h) × ((call_handles env cs h).closed ≡ [])
unfolding call_handles
call_handles-Once env [] h once e = (once, e)
call_handles-Once env (c ∷ cs) h once e =
    call_handles-Once env cs (call_handle env c h) (call_handle-Once env c h once)
      (call_handle-closed env c h ∙ e)

as_nat-le : (b : Bool) → as_nat b ≤ 1
as_nat-le true = omega arith
as_nat-le false = omega arith

held-le : (x : Handle) (h : Handles) → held x h ≤ 1
held-le queue h = as_nat-le (is_some h.queue_handle)
held-le worker h = as_nat-le (is_some h.worker_handle)
held-le queue_events h = as_nat-le h.events_handle

abbrev closed_if : Bool → Handle → List Handle → List Handle
closed_if b x xs = if b then x ∷ xs else xs

close_if-closed :
    (close : Handle → Option String) (x : Handle) (b : Bool) (h : Handles)
    → close x ≡ none
    → close_if close x b h ≡ (ok tt, record h { closed = closed_if b x h.closed })
unfolding close_if
close_if-closed close x true h answers = rw answers refl
close_if-closed close x false h answers = refl

count-closed_if :
    (x : Handle) (a b c : Bool)
    → count x (closed_if c queue_events (closed_if b queue (closed_if a worker [])))
      ≡ (if same x worker then as_nat a else if same x queue then as_nat b else as_nat c)
count-closed_if queue a b c = ground arith
count-closed_if worker a b c = ground arith
count-closed_if queue_events a b c = ground arith

drain_queue-closed :
    (close : Handle → Option String) (h : Handles)
    → ((x : Handle) → close x ≡ none)
    → drain_queue close h ≡ (
      ok tt,
      record h {
        closed = closed_if h.events_handle queue_events (
            closed_if
              (is_some h.queue_handle)
              queue
              (closed_if (is_some h.worker_handle) worker h.closed));
      },
    )
unfolding drain_queue
drain_queue-closed close h answers =
    rw
      (
        close_if-closed close worker (is_some h.worker_handle) h (answers worker),
        close_if-closed close queue (is_some h.queue_handle) _ (answers queue),
        close_if-closed close queue_events h.events_handle _ (answers queue_events),
      )
      refl

held-which :
    (x : Handle) (h : Handles)
    → (if same x worker
        then as_nat (is_some h.worker_handle)
        else if same x queue
        then as_nat (is_some h.queue_handle)
        else as_nat h.events_handle)
      ≡ held x h
held-which queue h = refl
held-which worker h = refl
held-which queue_events h = refl

-- After any calls of the functions that open, in any order and any number of them, each of the
-- queue, its worker and its events was opened at most once; and where each can be closed, the drain
-- returns and has closed each as often as it was opened.
pub drain_queue-count :
    (env : Env) (cs : List HandleCall) (close : Handle → Option String)
    → ((x : Handle) → close x ≡ none)
    → (x : Handle)
    → (count x (call_handles env cs no_handles).opened ≤ 1)
      × ((drain_queue close (call_handles env cs no_handles)).0 ≡ ok tt)
      × (count x (drain_queue close (call_handles env cs no_handles)).1.closed
          ≡ count x (call_handles env cs no_handles).opened)
drain_queue-count env cs close answers x =
    let h = call_handles env cs no_handles in
    let (once, none_closed) = call_handles-Once env cs no_handles no_handles-Once refl in
    (
      rw (once x) (held-le x h),
      rw (drain_queue-closed close h answers) refl,
      rw (drain_queue-closed close h answers, none_closed, once x)
          (count-closed_if x (is_some h.worker_handle) (is_some h.queue_handle) h.events_handle
            ∙ held-which x h),
    )
