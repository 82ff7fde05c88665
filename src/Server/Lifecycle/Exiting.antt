-- ===== src/Server/Lifecycle/Exiting.antt =====
-- How the process ends, against the events alone.
use mathlib.Core.List.{Memᴰ}
use mathlib.Core.List.Memᴰ.{head, tail}
use salesforce_tiktok_crm.Base.{
  ℕ, ◌+◌, ◌≤◌, ◌<◌, ◌≡◌, ◌≢◌, refl, ◌∙◌, sym, Option, none, some, Bool, true, false, List, [], ◌∷◌,
  leb, arith, inl, inr,
}
use salesforce_tiktok_crm.Server.Lifecycle.{
  ProcessEvent, handlers_installed, signal, server_closed, all_settled, uncaught, time, End, exited,
  killed, Process, started, shutdown_timeout, fire, while_running, any_due, react, react_all,
}
use salesforce_tiktok_crm.Server.Lifecycle.Events.{first_signal, time_after, time_after-le, Ending}

-- The first timer is that of time `t`, and no other fires before it.
abbrev FirstTimer : ℕ → List ℕ → Type 0
FirstTimer t [] = ⊥
FirstTimer t (d ∷ []) = d ≡ t + shutdown_timeout
FirstTimer t (d ∷ e ∷ ds) = (t + shutdown_timeout ≤ d) × FirstTimer t (e ∷ ds)

FirstTimer-cons :
    (t now : ℕ) (ts : List ℕ)
    → t ≤ now
    → FirstTimer t ts
    → FirstTimer t ((now + shutdown_timeout) ∷ ts)
FirstTimer-cons t now [] after h = absurd h
FirstTimer-cons t now (d ∷ ds) after h = (omega arith, h)

any_due-first :
    (t now : ℕ) (ts : List ℕ) → FirstTimer t ts → any_due now ts ≡ leb (t + shutdown_timeout) now
unfolding any_due
any_due-first t now [] h = absurd h
any_due-first t now (d ∷ []) h = rw h (ground arith)
any_due-first t now (d ∷ e ∷ ds) (later, h) =
    let rest : any_due now (e ∷ ds) ≡ leb (t + shutdown_timeout) now =
      any_due-first t now (e ∷ ds) h in
    rw rest (ground (arith, later))

abbrev Timing : Option ℕ → Bool → ℕ → List ℕ → Type 0
Timing none has_handlers now ts = ts ≡ []
Timing (some t) has_handlers now ts =
    (has_handlers ≡ true) × FirstTimer t ts × (t ≤ now) × (now < t + shutdown_timeout)

-- the first of the two, where there is one
abbrev or_later : Option ℕ → Option ℕ → Option ℕ
or_later none later = later
or_later (some t) later = some t

abbrev running : Bool → ℕ → List ℕ → Bool → Process
running has_handlers now ts closed = record {
  ended = none;
  has_handlers = has_handlers;
  now = now;
  timers = ts;
  closed = closed;
}

-- nothing happens once the process has ended
while_running-ended :
    (o : Option End) (e : ProcessEvent) (p : Process) (end : End)
    → p.ended ≡ o
    → o ≡ some end
    → (while_running o e p).ended ≡ some end
while_running-ended none e p end same h = cc
while_running-ended (some x) e p end same h = same ∙ h

react_all-ended :
    (es : List ProcessEvent) (p : Process) (end : End)
    → p.ended ≡ some end
    → (react_all es p).ended ≡ some end
unfolding react_all
react_all-ended [] p end h = h
react_all-ended (e ∷ es) p end h =
    react_all-ended es _ end (while_running-ended p.ended e p end refl h)

or_later-some : (first later : Option ℕ) → first ≢ none → or_later first later ≢ none
or_later-some none later h = absurd (h refl)
or_later-some (some t) later h = h

module _ (all : List ProcessEvent) where
  -- a server that has closed was asked to
  abbrev Closing : Option ℕ → Bool → Type 0
  Closing first closed = closed ≡ true → (first ≢ none) × Memᴰ server_closed all

  abbrev Among : List ProcessEvent → Type 0
  Among es = (e : ProcessEvent) → Memᴰ e es → Memᴰ e all

  -- an end that has come stays
  ended-Ending :
      (es : List ProcessEvent) (p : Process) (end : End) (first : Option ℕ) (now : ℕ)
      → p.ended ≡ some end
      → Ending (some end) all first now
      → Ending (react_all es p).ended all first now
  ended-Ending es p end first now h e = rw (react_all-ended es p end h) e

  FollowsFrom : Bool → ℕ → List ℕ → Bool → Option ℕ → List ProcessEvent → Type 0
  FollowsFrom h now ts closed first es =
      Ending (react_all es (running h now ts closed)).ended all
        (or_later first (first_signal h now es)) (time_after now es)

  Follows : List ProcessEvent → Type 0
  Follows es =
      (h : Bool) (now : ℕ) (ts : List ℕ) (closed : Bool) (first : Option ℕ)
      → Among es
      → Timing first h now ts
      → Closing first closed
      → FollowsFrom h now ts closed first es

  signal-Follows : (es : List ProcessEvent) → Follows es → Follows (signal ∷ es)
  unfolding Follows FollowsFrom react_all react first_signal time_after
  signal-Follows es ih true now [] closed none among timing closing =
      ih true now _ closed (some now) (λ e m. among e (tail m))
        (refl, refl, omega arith, omega arith) (λ c. absurd ((closing c).0 refl))
  signal-Follows es ih true now (d ∷ ds) closed none among timing closing = cc
  signal-Follows es ih true now ts closed (some t) among (h, f, after, before) closing =
      ih true now _ closed (some t) (λ e m. among e (tail m))
        (refl, FirstTimer-cons t now ts after f, after, before) closing
  signal-Follows es ih false now ts closed none among timing closing =
      ended-Ending es _ killed _ _ refl (refl, among signal (head refl))
  signal-Follows es ih false now ts closed (some t) among (h, f, after, before) closing = cc

  installed-Follows : (es : List ProcessEvent) → Follows es → Follows (handlers_installed ∷ es)
  unfolding Follows FollowsFrom react_all react first_signal time_after
  installed-Follows es ih h now ts closed none among timing closing =
      ih true now ts closed none (λ e m. among e (tail m)) timing closing
  installed-Follows es ih h now ts closed (some t) among timing closing =
      ih true now ts closed (some t) (λ e m. among e (tail m)) (refl, timing.1, timing.2, timing.3)
        closing

  closed-Follows : (es : List ProcessEvent) → Follows es → Follows (server_closed ∷ es)
  unfolding Follows FollowsFrom react_all react first_signal time_after
  closed-Follows es ih h now [] closed first among timing closing =
      ih h now [] closed first (λ e m. among e (tail m)) timing closing
  closed-Follows es ih h now (d ∷ ds) closed none among timing closing = cc
  closed-Follows es ih h now (d ∷ ds) closed (some t) among timing closing =
      ih h now (d ∷ ds) true (some t) (λ e m. among e (tail m)) timing
        (λ _. ((λ e. cc), among server_closed (head refl)))

  settled-Follows : (es : List ProcessEvent) → Follows es → Follows (all_settled ∷ es)
  unfolding Follows FollowsFrom react_all react first_signal time_after
  settled-Follows es ih h now ts true first among timing closing =
      ended-Ending es _ (exited 0) _ _ refl (
        inl (
          refl,
          or_later-some first _ (closing refl).0,
          (closing refl).1,
          among all_settled (head refl),
        ))
  settled-Follows es ih h now ts false first among timing closing =
      ih h now ts false first (λ e m. among e (tail m)) timing closing

  uncaught-Follows : (es : List ProcessEvent) → Follows es → Follows (uncaught ∷ es)
  unfolding Follows FollowsFrom react_all react first_signal time_after
  uncaught-Follows es ih h now ts closed first among timing closing =
      ended-Ending es _ (exited 1) _ _ refl (inr (refl, inl (among uncaught (head refl))))

  fire-Follows :
      (b : Bool) (es : List ProcessEvent) (h : Bool) (now : ℕ) (ts : List ℕ) (closed : Bool) (t : ℕ)
      → Follows es
      → Among es
      → leb (t + shutdown_timeout) now ≡ b
      → (h ≡ true) × FirstTimer t ts × (t ≤ now)
      → Closing (some t) closed
      → Ending
          (react_all es (fire b (running h now ts closed))).ended
          all
          (some t)
          (time_after now es)
  unfolding Follows FollowsFrom
  fire-Follows true es h now ts closed t ih among due timing closing =
      let passed = time_after-le es now in
      ended-Ending es _ (exited 1) _ _ refl (inr (refl, inr (ground (arith, due, passed))))
  fire-Follows false es h now ts closed t ih among due (installed, f, after) closing =
      ih h now ts closed (some t) among (installed, f, after, ground (arith, due)) closing

  time-Follows : (ms : ℕ) (es : List ProcessEvent) → Follows es → Follows (time ms ∷ es)
  unfolding Follows FollowsFrom react_all react first_signal time_after
  time-Follows ms es ih h now [] closed none among timing closing =
      unfold any_due in ih h (now + ms) [] closed none (λ e m. among e (tail m)) timing closing
  time-Follows ms es ih h now (d ∷ ds) closed none among timing closing = cc
  time-Follows ms es ih h now ts closed (some t) among (installed, f, after, before) closing =
      fire-Follows (any_due (now + ms) ts) es h (now + ms) ts closed t ih (λ e m. among e (tail m))
        (sym (any_due-first t (now + ms) ts f)) (installed, f, omega arith) closing

  start-Follows : Follows []
  unfolding Follows FollowsFrom react_all first_signal time_after
  start-Follows h now ts closed none among timing closing = tt
  start-Follows h now ts closed (some t) among timing closing = timing.3

  all-Follows : (es : List ProcessEvent) → Follows es
  all-Follows [] = start-Follows
  all-Follows (handlers_installed ∷ es) = installed-Follows es (all-Follows es)
  all-Follows (signal ∷ es) = signal-Follows es (all-Follows es)
  all-Follows (server_closed ∷ es) = closed-Follows es (all-Follows es)
  all-Follows (all_settled ∷ es) = settled-Follows es (all-Follows es)
  all-Follows (uncaught ∷ es) = uncaught-Follows es (all-Follows es)
  all-Follows (time ms ∷ es) = time-Follows ms es (all-Follows es)

-- Whatever happens to the process from its start on, in any order: while it runs, the first shutdown
-- that was asked for, by a signal once the handlers are installed, is less than 30 seconds old,
-- however many signals follow. It exits with 0 only where a shutdown was asked for, the HTTP server
-- has closed and what it releases has settled; with 1 only on an error that is not caught or once 30
-- seconds have passed; and with no other code. A signal kills it only where it comes before the
-- handlers are installed.
pub react_all-Ending :
    (es : List ProcessEvent)
    → Ending (react_all es started).ended es (first_signal false 0 es) (time_after 0 es)
unfolding Follows FollowsFrom
react_all-Ending es = all-Follows es es false 0 [] false none (λ e m. m) refl (λ h. cc)
