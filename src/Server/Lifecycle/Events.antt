-- ===== src/Server/Lifecycle/Events.antt =====
-- What the events of a process say by themselves: when the first shutdown was asked for, the time
-- that has passed, and what an end means.
use mathlib.Core.List.{Memᴰ}
use salesforce_tiktok_crm.Base.{
  ℕ, ◌+◌, ◌≤◌, ◌<◌, ◌≡◌, ◌≢◌, Option, none, some, Bool, true, false, List, [], ◌∷◌, arith, ◌⊎◌,
}
use salesforce_tiktok_crm.Server.Lifecycle.{
  ProcessEvent, handlers_installed, signal, server_closed, all_settled, uncaught, time, End, exited,
  killed, shutdown_timeout,
}

-- The time of the first signal that comes after the handlers are there, if no signal comes before.
unfoldable pub first_signal : Bool → ℕ → List ProcessEvent → Option ℕ
first_signal has_handlers now [] = none
first_signal has_handlers now (handlers_installed ∷ es) = first_signal true now es
first_signal true now (signal ∷ es) = some now
first_signal false now (signal ∷ es) = none
first_signal has_handlers now (server_closed ∷ es) = first_signal has_handlers now es
first_signal has_handlers now (all_settled ∷ es) = first_signal has_handlers now es
first_signal has_handlers now (uncaught ∷ es) = first_signal has_handlers now es
first_signal has_handlers now (time ms ∷ es) = first_signal has_handlers (now + ms) es

-- The time after the events.
unfoldable pub time_after : ℕ → List ProcessEvent → ℕ
time_after now [] = now
time_after now (time ms ∷ es) = time_after (now + ms) es
time_after now (handlers_installed ∷ es) = time_after now es
time_after now (signal ∷ es) = time_after now es
time_after now (server_closed ∷ es) = time_after now es
time_after now (all_settled ∷ es) = time_after now es
time_after now (uncaught ∷ es) = time_after now es

pub time_after-le : (es : List ProcessEvent) (now : ℕ) → now ≤ time_after now es
unfolding time_after
time_after-le [] now = omega arith
time_after-le (time ms ∷ es) now = let h = time_after-le es (now + ms) in omega arith
time_after-le (handlers_installed ∷ es) now = time_after-le es now
time_after-le (signal ∷ es) now = time_after-le es now
time_after-le (server_closed ∷ es) now = time_after-le es now
time_after-le (all_settled ∷ es) now = time_after-le es now
time_after-le (uncaught ∷ es) now = time_after-le es now

-- A shutdown that was asked for is less than 30 seconds old.
abbrev pub InTime : Option ℕ → ℕ → Type 0
InTime none now = Unit
InTime (some t) now = now < t + shutdown_timeout

-- A shutdown was asked for at least 30 seconds ago.
abbrev pub TimedOut : Option ℕ → ℕ → Type 0
TimedOut none now = ⊥
TimedOut (some t) now = t + shutdown_timeout ≤ now

-- What an end says of the events, of the first shutdown and of the time.
abbrev pub Ending : Option End → List ProcessEvent → Option ℕ → ℕ → Type 0
Ending none es first now = InTime first now
Ending (some (exited code)) es first now =
    ((code ≡ 0) × (first ≢ none) × Memᴰ server_closed es × Memᴰ all_settled es)
    ⊎ ((code ≡ 1) × (Memᴰ uncaught es ⊎ TimedOut first now))
Ending (some killed) es first now = (first ≡ none) × Memᴰ signal es
