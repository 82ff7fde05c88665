-- ===== src/Clients/Retry/Policy.antt =====
-- What the retry policy retries, and how its delays grow.
use native.Mathlib.Nat.{pow-suc, one-le-pow}
use salesforce_tiktok_crm.Base.{
  ℕ, zero, suc, ◌+◌, ◌-◌, ◌*◌, ◌^◌, ◌≤◌, Bool, true, ◌≡◌, ◌↔◌, ◌⊎◌, none, some, arith,
}
use salesforce_tiktok_crm.Config.{Env}
use salesforce_tiktok_crm.Clients.Retry.{retry_condition, retry_delay}

-- An error with a response is retried exactly if its status is 429 or at least 500, and one
-- without a response exactly if it is a network error.
pub retry_condition_iff :
    (status : ℕ) (network : Bool)
    → ((retry_condition (record { response_status = some status; is_network_error = network })
          ≡ true)
        ↔ ((status ≡ 429) ⊎ (500 ≤ status)))
      × ((retry_condition (record { response_status = none; is_network_error = network }) ≡ true)
          ↔ (network ≡ true))
unfolding retry_condition
retry_condition_iff status network = ground arith

-- Up to the jitter each delay is twice the one before, and no delay is below the initial one.
pub retry_delay-double :
    (env : Env) (n jitter jitter' : ℕ)
    → 1 ≤ n
    → (retry_delay env (n + 1) jitter' + 2 * jitter ≡ 2 * retry_delay env n jitter + jitter')
      × (env.tiktok_initial_retry_delay_ms ≤ retry_delay env n jitter)
unfolding retry_delay
retry_delay-double env zero jitter jitter' pos = absurd (omega arith)
retry_delay-double env (suc m) jitter jitter' pos =
    let next : suc m + 1 - 1 ≡ suc m = omega arith in
    let this : suc m - 1 ≡ m = omega arith in
    let grows : env.tiktok_initial_retry_delay_ms * 1 ≤ env.tiktok_initial_retry_delay_ms * 2 ^ m =
      grind (arith, one-le-pow m 2 (omega arith)) in
    rw (next, this, pow-suc 2 m) (omega arith, omega arith)
