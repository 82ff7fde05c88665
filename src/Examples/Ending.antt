-- ===== src/Examples/Ending.antt =====
-- The end of the process and of the queue on sample data.
use salesforce_tiktok_crm.Base.{◌≤◌, ◌≡◌, refl, none, false, List, [], ◌∷◌}
use salesforce_tiktok_crm.Exec.{ok}
use salesforce_tiktok_crm.Config.{default_env}
use salesforce_tiktok_crm.Queue.Handles.{queue, get, start, no_handles, call_handles, drain_queue}
use salesforce_tiktok_crm.Queue.Handles.Closing.{count, drain_queue-count}
use salesforce_tiktok_crm.Server.Lifecycle.{
  ProcessEvent, handlers_installed, signal, server_closed, all_settled, time, started, react_all,
}
use salesforce_tiktok_crm.Server.Lifecycle.Events.{first_signal, time_after, Ending}
use salesforce_tiktok_crm.Server.Lifecycle.Exiting.{react_all-Ending}

drain_queue-count_example :
    (count queue (call_handles default_env (get ∷ start ∷ get ∷ []) no_handles).opened ≤ 1)
    × ((drain_queue (λ x. none) (call_handles default_env (get ∷ start ∷ get ∷ []) no_handles)).0
        ≡ ok tt)
    × (count queue
          (drain_queue
            (λ x. none)
            (call_handles default_env (get ∷ start ∷ get ∷ []) no_handles)).1.closed
        ≡ count queue (call_handles default_env (get ∷ start ∷ get ∷ []) no_handles).opened)
drain_queue-count_example =
    drain_queue-count default_env (get ∷ start ∷ get ∷ []) (λ x. none) (λ x. refl) queue

-- Two signals, the second a second before the first one's timer fires.
abbrev events : List ProcessEvent
events =
    handlers_installed ∷ time 500 ∷ signal ∷ time 29000 ∷ signal ∷ server_closed ∷ all_settled ∷ []

react_all-Ending_example :
    Ending
      (react_all events started).ended
      events
      (first_signal false 0 events)
      (time_after 0 events)
react_all-Ending_example = react_all-Ending events
