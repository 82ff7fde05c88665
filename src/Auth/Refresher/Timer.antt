-- ===== src/Auth/Refresher/Timer.antt =====
-- auth/proactive-refresher.ts, `start` and `stop`: the interval that `refreshAll` runs on.
use salesforce_tiktok_crm.Base.{
  ℕ, suc, ◌+◌, ◌*◌, ◌≡◌, refl, Option, none, some, List, [], ◌∷◌, arith,
}

-- `23 * 60 * 60 * 1000`
abbrev pub default_interval_ms : ℕ
default_interval_ms = 23 * 60 * 60 * 1000

pub record Timer : Type 0 where
  pub interval_ms : ℕ
  -- the interval that is set, by its number
  pub interval_handle : Option ℕ
  pub intervals_set : ℕ
  pub intervals_cleared : ℕ
  -- the rounds of `refreshAll` that were started
  pub rounds : ℕ

abbrev pub new_timer : Timer
new_timer = record {
  interval_ms = default_interval_ms;
  interval_handle = none;
  intervals_set = 0;
  intervals_cleared = 0;
  rounds = 0;
}

abbrev start_unless : Option ℕ → Timer → Timer
start_unless (some handle) t = t
start_unless none t = record t {
  interval_handle = some t.intervals_set;
  intervals_set = suc t.intervals_set;
  rounds = suc t.rounds;
}

unfoldable pub start : Timer → Timer
start t = start_unless t.interval_handle t

abbrev stop_if : Option ℕ → Timer → Timer
stop_if none t = t
stop_if (some handle) t = record t {
  interval_handle = none;
  intervals_cleared = suc t.intervals_cleared;
}

unfoldable pub stop : Timer → Timer
stop t = stop_if t.interval_handle t

-- the interval has passed once more
abbrev tick_if : Option ℕ → Timer → Timer
tick_if none t = t
tick_if (some handle) t = record t { rounds = suc t.rounds }

unfoldable pub tick : Timer → Timer
tick t = tick_if t.interval_handle t

pub data TimerCall : Type 0 where
  starts stops ticks : TimerCall

abbrev call_timer : TimerCall → Timer → Timer
unfolding start stop tick
call_timer starts t = start t
call_timer stops t = stop t
call_timer ticks t = tick t

unfoldable pub call_timers : List TimerCall → Timer → Timer
unfolding call_timer
call_timers [] t = t
call_timers (c ∷ cs) t = call_timers cs (call_timer c t)

abbrev pub one_if : Option ℕ → ℕ
one_if none = 0
one_if (some handle) = 1

Balanced : Timer → Type 0
Balanced t = t.intervals_set ≡ t.intervals_cleared + one_if t.interval_handle

start_unless-Balanced :
    (o : Option ℕ) (t : Timer) → t.interval_handle ≡ o → Balanced t → Balanced (start_unless o t)
unfolding Balanced
start_unless-Balanced (some handle) t e b = b
start_unless-Balanced none t e b = ground (arith, e, b)

stop_if-Balanced :
    (o : Option ℕ) (t : Timer) → t.interval_handle ≡ o → Balanced t → Balanced (stop_if o t)
unfolding Balanced
stop_if-Balanced none t e b = b
stop_if-Balanced (some handle) t e b = ground (arith, e, b)

tick_if-Balanced : (o : Option ℕ) (t : Timer) → Balanced t → Balanced (tick_if o t)
unfolding Balanced
tick_if-Balanced none t b = b
tick_if-Balanced (some handle) t b = b

call_timers-Balanced : (cs : List TimerCall) (t : Timer) → Balanced t → Balanced (call_timers cs t)
unfolding call_timers call_timer start stop tick
call_timers-Balanced [] t b = b
call_timers-Balanced (starts ∷ cs) t b =
    call_timers-Balanced cs (start t) (start_unless-Balanced t.interval_handle t refl b)
call_timers-Balanced (stops ∷ cs) t b =
    call_timers-Balanced cs (stop t) (stop_if-Balanced t.interval_handle t refl b)
call_timers-Balanced (ticks ∷ cs) t b =
    call_timers-Balanced cs (tick t) (tick_if-Balanced t.interval_handle t b)

-- After any calls of `start` and `stop` and any ticks, every interval that was set was cleared but
-- the one that the refresher holds, if it holds one: `start` never leaves a second one behind.
pub call_timers-one :
    (cs : List TimerCall)
    → (call_timers cs new_timer).intervals_set
      ≡ (call_timers cs new_timer).intervals_cleared
        + one_if (call_timers cs new_timer).interval_handle
unfolding Balanced
call_timers-one cs = call_timers-Balanced cs new_timer refl
