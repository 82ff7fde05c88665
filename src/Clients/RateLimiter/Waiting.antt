-- ===== src/Clients/RateLimiter/Waiting.antt =====
-- `acquire` returns.
use salesforce_tiktok_crm.Base.{
  ℕ, zero, suc, none, ◌+◌, ◌≤◌, ◌<◌, true, false, ◌≡◌, refl, some, arith, Bool-cases, inl, inr,
}
use salesforce_tiktok_crm.Clients.RateLimiter.{RateLimiter, round, wait_ms, acquire_from}
use salesforce_tiktok_crm.Clients.RateLimiter.Burst.{IsValid, round-IsValid}

-- After the wait that a failed round asks for, or longer, the next round returns.
round_after_wait :
    (now later : ℕ) (l : RateLimiter)
    → IsValid l
    → 1 ≤ l.max_tokens
    → (round now l).1 ≡ false
    → now + wait_ms now (round now l).0 ≤ later
    → (round later (round now l).0).1 ≡ true
unfolding round wait_ms
round_after_wait now later l v some_token failed waited = ground arith

round_takes :
    (now : ℕ) (l : RateLimiter)
    → IsValid l
    → (round now l).1 ≡ true
    → (round now l).0.tokens < (round now l).0.max_tokens
unfolding round
round_takes now l v done = ground arith

wait-le :
    (now : ℕ) (l : RateLimiter)
    → IsValid l
    → l.last_refill ≤ now
    → (round now l).1 ≡ false
    → wait_ms now (round now l).0 ≤ 1000
unfolding round wait_ms
wait-le now l v past failed = ground arith

-- A call of `acquire` that runs alone, with no other call taking tokens until it returns, and whose
-- sleeps end exactly when they ask to: on a valid limiter of at least one token a second, whose last
-- refill is not in the future, it returns within a second, after one wait at most, and has taken a
-- token.
pub acquire_total :
    (now : ℕ) (l : RateLimiter)
    → IsValid l
    → 1 ≤ l.max_tokens
    → l.last_refill ≤ now
    → (l' : RateLimiter) × (later : ℕ) × (acquire_from 2 now l ≡ some (l', later))
      × (later ≤ now + 1000)
      × (l'.tokens < l'.max_tokens)
unfolding acquire_from
acquire_total now l v some_token past = elim (Bool-cases (round now l).1) [
  | inl done ↦ ((round now l).0, now, rw done refl, omega arith, round_takes now l v done)
  | inr failed ↦
      let later = now + wait_ms now (round now l).0 in
      let again = round_after_wait now later l v some_token failed (omega arith) in
      (
        (round later (round now l).0).0,
        later,
        rw (failed, again) refl,
        omega (arith, wait-le now l v past failed),
        round_takes later (round now l).0 (round-IsValid now l v) again,
      )
]

round-zero :
    (now : ℕ) (l : RateLimiter)
    → l.max_tokens ≡ 0
    → l.tokens ≡ 0
    → ((round now l).1 ≡ false) × ((round now l).0.max_tokens ≡ 0) × ((round now l).0.tokens ≡ 0)
unfolding round
round-zero now l h k = ground arith

-- With a rate of 0 no call of `acquire` returns, however often it waits.
pub acquire-zero :
    (rounds now : ℕ) (l : RateLimiter)
    → l.max_tokens ≡ 0
    → l.tokens ≡ 0
    → acquire_from rounds now l ≡ none
unfolding acquire_from
acquire-zero zero now l h k = refl
acquire-zero (suc rounds) now l h k =
    let (failed, h', k') = round-zero now l h k in rw failed (acquire-zero rounds _ _ h' k')
