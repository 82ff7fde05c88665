-- ===== src/Server/Lifecycle.antt =====
-- server.ts: how the process ends. A signal is handled once the handlers are installed, after the
-- server has begun to listen; before that it kills the process. A shutdown asks the HTTP server to
-- close and starts a timer of its own; once the server has closed, the callback waits until what it
-- releases has settled, and exits.
pub mod Events
pub mod Exiting
use salesforce_tiktok_crm.Base.{
  ℕ, ◌+◌, Option, none, some, Bool, true, false, ◌||◌, List, [], ◌∷◌, leb, if◌then◌else◌,
}

-- `30_000`
abbrev pub shutdown_timeout : ℕ
shutdown_timeout = 30000

pub data ProcessEvent : Type 0 where
  -- the last lines of `bootstrap` have installed the handlers
  handlers_installed : ProcessEvent
  -- SIGTERM or SIGINT
  signal : ProcessEvent
  -- the HTTP server has closed, and the callbacks of `close` run
  server_closed : ProcessEvent
  -- everything that such a callback releases has settled
  all_settled : ProcessEvent
  -- an uncaught exception, an unhandled rejection, or an error of `bootstrap`: the exit code is 1,
  -- by the handlers and, before they are there, by Node
  uncaught : ProcessEvent
  time : ℕ → ProcessEvent

-- The process exits with a code, or a signal kills it.
pub data End : Type 0 where
  exited : ℕ → End
  killed : End

pub record Process : Type 0 where
  pub ended : Option End
  pub has_handlers : Bool
  pub now : ℕ
  -- when the timers fire, the one set last first
  pub timers : List ℕ
  pub closed : Bool

abbrev pub started : Process
started = record { ended = none; has_handlers = false; now = 0; timers = []; closed = false }

abbrev pub exit : ℕ → Process → Process
exit code p = record p { ended = some (exited code) }

-- `shutdown`, or what a signal does by default
abbrev pub on_signal : Bool → Process → Process
on_signal true p = record p { timers = (p.now + shutdown_timeout) ∷ p.timers }
on_signal false p = record p { ended = some killed }

unfoldable pub any_due : ℕ → List ℕ → Bool
any_due now [] = false
any_due now (d ∷ ds) = leb d now || any_due now ds

abbrev pub fire : Bool → Process → Process
fire true p = exit 1 p
fire false p = p

-- the server closes where a shutdown has asked it to
abbrev pub close_asked : List ℕ → Process → Process
close_asked [] p = p
close_asked (d ∷ ds) p = record p { closed = true }

abbrev pub settle : Bool → Process → Process
settle true p = exit 0 p
settle false p = p

unfoldable pub react : ProcessEvent → Process → Process
unfolding any_due
react handlers_installed p = record p { has_handlers = true }
react signal p = on_signal p.has_handlers p
react server_closed p = close_asked p.timers p
react all_settled p = settle p.closed p
react uncaught p = exit 1 p
react (time ms) p = fire (any_due (p.now + ms) p.timers) (record p { now = p.now + ms })

abbrev pub while_running : Option End → ProcessEvent → Process → Process
while_running none e p = react e p
while_running (some end) e p = p

unfoldable pub react_all : List ProcessEvent → Process → Process
unfolding react
react_all [] p = p
react_all (e ∷ es) p = react_all es (while_running p.ended e p)
