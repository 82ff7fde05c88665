-- ===== src/Listener/Connecting.antt =====
-- The retries of `connect`.
use Prim.Native.String
use salesforce_tiktok_crm.Base.{
  ℕ, zero, suc, ◌+◌, ◌*◌, ◌<◌, String, true, ◌≡◌, refl, sym, ◌∙◌, ap, Option, none, some, arith,
}
use salesforce_tiktok_crm.Exec.{ok, thrown}
use salesforce_tiktok_crm.Listener.{
  AuthReply, granted, refused, unreachable, Salesforce, Listener, authenticated, sleep,
  connect_once, connect,
}

-- the error of an attempt that fails
abbrev pub refusal : AuthReply → Option String
refusal granted = none
refusal (refused text) = some (String.◌++◌ "Salesforce auth failed: " text)
refusal (unreachable text) = some text

-- So many attempts fail, from a position in the stream of answers.
abbrev pub Refused : Salesforce → (from attempts : ℕ) → Type 0
Refused salesforce from zero = Unit
Refused salesforce from (suc k) =
    ((m : String) × (refusal (salesforce.authenticate from) ≡ some m))
    × Refused salesforce (suc from) k

module _ {S : Type 0} (salesforce : Salesforce) where
  -- the listener after attempts that failed, with a wait after each
  abbrev pub retried : (attempts delay_ms : ℕ) → Listener S → Listener S
  retried attempts delay_ms l = record l {
    connects = l.connects + attempts;
    slept = l.slept + attempts * delay_ms;
  }

  connect_once-granted :
      (l : Listener S)
      → salesforce.authenticate l.connects ≡ granted
      → connect_once salesforce l
        ≡ (ok tt, record l { subscribed = true; connects = suc l.connects })
  unfolding connect_once
  connect_once-granted l h = rw h refl

  authenticated-thrown :
      (r : AuthReply) (m : String) (l : Listener S)
      → refusal r ≡ some m
      → authenticated salesforce r l ≡ (thrown m, l)
  authenticated-thrown granted m l h = cc
  authenticated-thrown (refused text) m l h = cc
  authenticated-thrown (unreachable text) m l h = cc

  connect_once-thrown :
      (l : Listener S) (m : String)
      → refusal (salesforce.authenticate l.connects) ≡ some m
      → connect_once salesforce l ≡ (thrown m, record l { connects = suc l.connects })
  unfolding connect_once
  connect_once-thrown l m h = authenticated-thrown (salesforce.authenticate l.connects) m _ h

  -- Where the first attempts are refused or find no one and the one after them is granted, within
  -- the attempts that are made, `connect` returns: it is subscribed, and has made those attempts
  -- and the granted one, with a wait after each that failed.
  pub connect-granted :
      (k attempts delay_ms : ℕ) (l : Listener S)
      → k < attempts
      → Refused salesforce l.connects k
      → salesforce.authenticate (l.connects + k) ≡ granted
      → connect salesforce attempts delay_ms l ≡ (
        ok tt,
        record (retried k delay_ms l) { subscribed = true; connects = suc (l.connects + k) },
      )
  unfolding connect sleep
  connect-granted zero (suc zero) delay_ms l lt fails grants =
      let e : l.connects + 0 ≡ l.connects = omega arith in
      let z : l.slept + 0 * delay_ms ≡ l.slept = omega arith in
      rw (e, z, connect_once-granted l (ap salesforce.authenticate (sym e) ∙ grants)) refl
  connect-granted zero (suc (suc n)) delay_ms l lt fails grants =
      let e : l.connects + 0 ≡ l.connects = omega arith in
      let z : l.slept + 0 * delay_ms ≡ l.slept = omega arith in
      rw (e, z, connect_once-granted l (ap salesforce.authenticate (sym e) ∙ grants)) refl
  connect-granted zero zero delay_ms l lt fails grants = absurd (omega arith)
  connect-granted (suc k) zero delay_ms l lt fails grants = absurd (omega arith)
  connect-granted (suc k) (suc zero) delay_ms l lt fails grants = absurd (omega arith)
  connect-granted (suc k) (suc (suc n)) delay_ms l lt ((m, fails), more) grants =
      let shift : l.connects + suc k ≡ suc l.connects + k = omega arith in
      let waits : l.slept + suc k * delay_ms ≡ l.slept + delay_ms + k * delay_ms = ground arith in
      rw (connect_once-thrown l m fails) (
        connect-granted k (suc n) delay_ms
          (record l { connects = suc l.connects; slept = l.slept + delay_ms }) (omega arith) more
          (ap salesforce.authenticate (sym shift) ∙ grants)
        ∙ rw (shift, waits) refl)

  -- Where every attempt is refused or finds no one, `connect` throws what the last one threw, and
  -- has waited after each of the others.
  pub connect-Refused :
      (k delay_ms : ℕ) (l : Listener S) (last : String)
      → Refused salesforce l.connects k
      → refusal (salesforce.authenticate (l.connects + k)) ≡ some last
      → connect salesforce (suc k) delay_ms l
        ≡ (thrown last, record (retried k delay_ms l) { connects = suc (l.connects + k) })
  unfolding connect sleep
  connect-Refused zero delay_ms l last fails h =
      let e : l.connects + 0 ≡ l.connects = omega arith in
      let z : l.slept + 0 * delay_ms ≡ l.slept = omega arith in
      rw
        (
          e,
          z,
          connect_once-thrown l last (ap (λ n. refusal (salesforce.authenticate n)) (sym e) ∙ h),
        )
        refl
  connect-Refused (suc k) delay_ms l last ((m, fails), more) h =
      let shift : l.connects + suc k ≡ suc l.connects + k = omega arith in
      let waits : l.slept + suc k * delay_ms ≡ l.slept + delay_ms + k * delay_ms = ground arith in
      rw (connect_once-thrown l m fails) (
        connect-Refused k delay_ms
          (record l { connects = suc l.connects; slept = l.slept + delay_ms }) last more
          (ap (λ n. refusal (salesforce.authenticate n)) (sym shift) ∙ h)
        ∙ rw (shift, waits) refl)
