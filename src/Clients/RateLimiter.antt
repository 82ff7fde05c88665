-- ===== src/Clients/RateLimiter.antt =====
-- clients/tiktok-api-client.ts, `RateLimiter`. Times are in milliseconds; a round of `acquire` runs
-- without an `await`, so concurrent calls interleave between rounds. A difference
-- of times that the source compares is written as a sum, so that it holds for a clock set back too.
pub mod Burst
pub mod Waiting
use Prim.Native.Nat.{max}
use salesforce_tiktok_crm.Base.{
  ℕ, zero, suc, ◌+◌, ◌-◌, Bool, true, false, Option, none, some, List, [], ◌∷◌, leb, if◌then◌else◌,
}

pub record RateLimiter : Type 0 where
  pub tokens : ℕ
  pub last_refill : ℕ
  pub max_tokens : ℕ
  pub refill_interval_ms : ℕ

unfoldable pub new : ℕ → ℕ → RateLimiter
new rps now = record {
  tokens = rps;
  last_refill = now;
  max_tokens = rps;
  refill_interval_ms = 1000;
}

unfoldable pub refill : ℕ → RateLimiter → RateLimiter
refill now l =
    if leb (l.refill_interval_ms + l.last_refill) now
    then record l { tokens = l.max_tokens; last_refill = now }
    else l

-- One round of the loop of `acquire`: the limiter after it, and whether the call returns.
unfoldable pub round : ℕ → RateLimiter → RateLimiter × Bool
unfolding refill
round now l =
    let l' = refill now l in
    if leb 1 l'.tokens then (record l' { tokens = l'.tokens - 1 }, true) else (l', false)

-- `Math.max(waitMs, 10)`, where `-` stops at 0, below 10
unfoldable pub wait_ms : ℕ → RateLimiter → ℕ
wait_ms now l = max (l.refill_interval_ms + l.last_refill - now) 10

abbrev pub one_if : Bool → ℕ
one_if true = 1
one_if false = 0

-- Rounds at given times, of any number of calls: how many return.
unfoldable pub grants : List ℕ → RateLimiter → ℕ
grants [] l = 0
grants (t ∷ ts) l = one_if (round t l).1 + grants ts (round t l).0

-- A call of `acquire` that runs alone, and whose sleeps end exactly when they ask to, on fuel: the
-- limiter and the time when it returns; `none` means that the fuel ran out. (Calls of the program can
-- run concurrently, on one limiter: `grants` takes their rounds in any order.)
unfoldable pub acquire_from : ℕ → ℕ → RateLimiter → Option (RateLimiter × ℕ)
acquire_from zero now l = none
acquire_from (suc rounds) now l =
    let (l', done) = round now l in
    let again = acquire_from rounds (now + wait_ms now l') l' in
    if done then some (l', now) else again
