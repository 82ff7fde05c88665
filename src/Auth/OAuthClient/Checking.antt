-- ===== src/Auth/OAuthClient/Checking.antt =====
-- The check of an answer's code passes where it is 0, and changes nothing.
use salesforce_tiktok_crm.Base.{ℕ, String, Bool-cases, inl, inr, nat_eq, ◌≡◌, arith}
use salesforce_tiktok_crm.Exec.Rules.{Run}
use salesforce_tiktok_crm.Redis.{Redis}
use salesforce_tiktok_crm.World.{World}
use salesforce_tiktok_crm.Auth.OAuthClient.{assert_success}

module _ {R : Redis} (P Q H : World R → Type 0) where
  pub assert_success-Run :
      (code : ℕ) (text context : String) (w : World R)
      → (code ≡ 0 → P w)
      → Q w
      → Run (λ _. P) (λ _. Q) H (assert_success code text context w)
  unfolding assert_success Run
  assert_success-Run code text context w p q = elim (Bool-cases (nat_eq code 0)) [
    | inl e ↦ rw e (p (ground arith))
    | inr e ↦ rw e q
  ]
