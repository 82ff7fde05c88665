-- ===== src/Clients/Retry.antt =====
-- clients/tiktok-api-client.ts, the policy given to axios-retry: which errors are retried, and when.
pub mod Policy
use salesforce_tiktok_crm.Base.{
  ℕ, suc, ◌+◌, ◌-◌, ◌*◌, ◌^◌, Bool, true, false, ◌||◌, Option, none, some, List, [], ◌∷◌, nat_eq,
  leb, if◌then◌else◌,
}
use salesforce_tiktok_crm.Config.{Env}

-- An error of axios: the status of the response, if there is one, and what
-- `axiosRetry.isNetworkError` says of it.
pub record HttpError : Type 0 where
  pub response_status : Option ℕ
  pub is_network_error : Bool

unfoldable pub non_retryable_codes : List ℕ
non_retryable_codes = 400 ∷ 401 ∷ 403 ∷ []

unfoldable pub has_code : ℕ → List ℕ → Bool
has_code status [] = false
has_code status (c ∷ cs) = nat_eq c status || has_code status cs

unfoldable pub retry_status : ℕ → Bool
unfolding has_code non_retryable_codes
retry_status status =
    if has_code status non_retryable_codes then false else nat_eq status 429 || leb 500 status

retry_case : Option ℕ → Bool → Bool
retry_case (some status) network = retry_status status
retry_case none network = network

unfoldable pub retry_condition : HttpError → Bool
unfolding retry_case retry_status
retry_condition error = retry_case error.response_status error.is_network_error

-- The delay before retry `retry_count` (from 1), in milliseconds; `jitter` is the value of
-- `Math.random() * 200`, rounded down.
unfoldable pub retry_delay : Env → ℕ → ℕ → ℕ
retry_delay env retry_count jitter =
    env.tiktok_initial_retry_delay_ms * 2 ^ (retry_count - 1) + jitter
