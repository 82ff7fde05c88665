-- ===== src/Exec.antt =====
-- An asynchronous function that changes what it shares: it returns, throws an error with a message,
-- or never settles, and the state comes back with each outcome.
pub mod Rules
use salesforce_tiktok_crm.Base.{String, Bool, true, false}

pub data Result {ℓ} (A : Type ℓ) : Type ℓ where
  ok : A → Result A
  thrown : String → Result A
  hangs : Result A

abbrev pub Exec {ℓ} : Type ℓ → Type ℓ → Type ℓ
Exec S A = S → Result A × S

module _ {ℓ} {S A : Type ℓ} where
  abbrev pub return : A → Exec S A
  return a s = (ok a, s)

  abbrev pub throw : String → Exec S A
  throw message s = (thrown message, s)

  -- `catch` after the body has come to an outcome
  abbrev pub recover_from : Result A → S → (String → Exec S A) → Result A × S
  recover_from (ok a) s handler = (ok a, s)
  recover_from (thrown message) s handler = handler message s
  recover_from hangs s handler = (hangs, s)

  -- `try { body } catch (err) { handler }`
  abbrev pub recover : Exec S A → (String → Exec S A) → Exec S A
  recover body handler s = let (r, s') = body s in recover_from r s' handler

module _ {ℓ} {S A B : Type ℓ} where
  abbrev pub go_on : Result A → S → (A → Exec S B) → Result B × S
  go_on (ok a) s rest = rest a s
  go_on (thrown message) s rest = (thrown message, s)
  go_on hangs s rest = (hangs, s)

  infixl 5 ◌>>=◌ ◌>>◌
  abbrev pub ◌>>=◌ : Exec S A → (A → Exec S B) → Exec S B
  ◌>>=◌ body rest s = let (r, s') = body s in go_on r s' rest

  abbrev pub ◌>>◌ : Exec S A → Exec S B → Exec S B
  body >> rest = body >>= λ _. rest
