-- ===== src/Clients/RateLimiter/Burst.antt =====
-- How many calls return in one second.
use salesforce_tiktok_crm.Base.{
  ℕ, ◌+◌, ◌*◌, ◌≤◌, ◌<◌, ◌≡◌, List, [], ◌∷◌, arith, All, All-map, Bool-cases, leb, leb→le, inl, inr,
}
use salesforce_tiktok_crm.Clients.RateLimiter.{RateLimiter, round, grants, one_if}

pub record IsValid (l : RateLimiter) : Type 0 where
  pub within : l.tokens ≤ l.max_tokens
  pub second : l.refill_interval_ms ≡ 1000

pub round-IsValid : (t : ℕ) (l : RateLimiter) → IsValid l → IsValid (round t l).0
unfolding round
round-IsValid t l v = ground arith

max_tokens-round : (t : ℕ) (l : RateLimiter) → (round t l).0.max_tokens ≡ l.max_tokens
unfolding round
max_tokens-round t l = ground arith

-- A round uses up a token for each return, and refills at most once a second.
round_tokens :
    (t : ℕ) (l : RateLimiter)
    → IsValid l
    → t < l.last_refill + 1000
    → (one_if (round t l).1 + (round t l).0.tokens ≡ l.tokens)
      × ((round t l).0.last_refill ≡ l.last_refill)
unfolding round
round_tokens t l v h = ground arith

-- Before the next refill is due no more calls return than there are tokens.
grants_before_refill :
    (ts : List ℕ) (end : ℕ) (l : RateLimiter)
    → IsValid l
    → end ≤ l.last_refill + 1000
    → All (λ t. t < end) ts
    → grants ts l ≤ l.tokens
unfolding grants
grants_before_refill [] end l v h within = omega arith
grants_before_refill (t ∷ ts) end l v h (here, later) =
    let (used, same) = round_tokens t l v (omega arith) in
    omega
      (arith, grants_before_refill ts end (round t l).0 (round-IsValid t l v) (omega arith) later)

-- A round either refills or does as above.
round_cases :
    (t : ℕ) (l : RateLimiter)
    → IsValid l
    → l.last_refill + 1000 ≤ t
    → (one_if (round t l).1 + (round t l).0.tokens ≡ l.max_tokens) × ((round t l).0.last_refill ≡ t)
unfolding round
round_cases t l v h = ground arith

-- Within one second from `start`: the tokens at hand, and those of one refill.
grants_window :
    (ts : List ℕ) (start : ℕ) (l : RateLimiter)
    → IsValid l
    → All (λ t. (start ≤ t) × (t < start + 1000)) ts
    → grants ts l ≤ l.tokens + l.max_tokens
unfolding grants
grants_window [] start l v within = omega arith
grants_window (t ∷ ts) start l v ((from, to), later) =
    elim (Bool-cases (leb (l.last_refill + 1000) t)) [
      | inl due ↦
          let (used, at_t) = round_cases t l v (leb→le _ _ due) in
          omega (
            arith,
            grants_before_refill ts (start + 1000) (round t l).0 (round-IsValid t l v) (omega arith)
                (All-map _ _ ts (λ u p. p.1) later),
          )
      | inr not_due ↦
          let (used, same) = round_tokens t l v (ground arith) in
          omega (
            arith,
            grants_window ts start (round t l).0 (round-IsValid t l v) later,
            max_tokens-round t l,
          )
    ]

-- However many calls run and however their rounds interleave, at most twice the configured rate
-- return within any second.
pub grants-burst :
    (ts : List ℕ) (start : ℕ) (l : RateLimiter)
    → IsValid l
    → All (λ t. (start ≤ t) × (t < start + 1000)) ts
    → grants ts l ≤ 2 * l.max_tokens
grants-burst ts start l v within = omega (arith, grants_window ts start l v within, v.within)
