-- ===== src/Exec/Rules.antt =====
-- What a run of `Exec` comes to, and the rules for `>>=` and `catch`.
use salesforce_tiktok_crm.Base.{String, ◌≡◌, refl}
use salesforce_tiktok_crm.Exec.{Result, ok, thrown, hangs, Exec, recover_from, go_on}

-- One postcondition for each way in which a run can end.
abbrev pub Ends :
    {S A : Type 0} → (A → S → Type 0) → (String → S → Type 0) → (S → Type 0) → Result A → S → Type 0
Ends P Q H (ok a) s = P a s
Ends P Q H (thrown message) s = Q message s
Ends P Q H hangs s = H s

unfoldable pub Run :
    {S A : Type 0} → (A → S → Type 0) → (String → S → Type 0) → (S → Type 0) → Result A × S → Type 0
Run P Q H p = Ends P Q H p.0 p.1

module _ {S A : Type 0} where
  pub Run-recover :
      (P : A → S → Type 0) (Q Q' : String → S → Type 0) (H : S → Type 0) (r : Result A)
      (handler : String → Exec S A) (s : S)
      → Run P Q' H (r, s)
      → ((message : String) (s' : S) → Q' message s' → Run P Q H (handler message s'))
      → Run P Q H (recover_from r s handler)
  unfolding Run
  Run-recover P Q Q' H (ok a) handler s p rest = p
  Run-recover P Q Q' H (thrown message) handler s q rest = rest message s q
  Run-recover P Q Q' H hangs handler s p rest = p

  pub Run-mono :
      (P P' : A → S → Type 0) (Q Q' : String → S → Type 0) (H H' : S → Type 0) (r : Result A)
      (s : S)
      → Run P Q H (r, s)
      → ((a : A) (s : S) → P a s → P' a s)
      → ((message : String) (s : S) → Q message s → Q' message s)
      → ((s : S) → H s → H' s)
      → Run P' Q' H' (r, s)
  unfolding Run
  Run-mono P P' Q Q' H H' (ok a) s p on_ok on_throw on_hang = on_ok a s p
  Run-mono P P' Q Q' H H' (thrown message) s p on_ok on_throw on_hang = on_throw message s p
  Run-mono P P' Q Q' H H' hangs s p on_ok on_throw on_hang = on_hang s p

  pub Run-and :
      (P P' : A → S → Type 0) (Q Q' : String → S → Type 0) (H H' : S → Type 0) (r : Result A)
      (s : S)
      → Run P Q H (r, s)
      → Run P' Q' H' (r, s)
      → Run (λ a s. P a s × P' a s) (λ m s. Q m s × Q' m s) (λ s. H s × H' s) (r, s)
  unfolding Run
  Run-and P P' Q Q' H H' (ok a) s p p' = (p, p')
  Run-and P P' Q Q' H H' (thrown message) s p p' = (p, p')
  Run-and P P' Q Q' H H' hangs s p p' = (p, p')

  -- an error is the one that the run gives
  pub Run-says :
      (P : A → S → Type 0) (Q : String → S → Type 0) (H : S → Type 0) (r : Result A) (s : S)
      → Run P Q H (r, s)
      → Run P (λ m s. Q m s × (r ≡ thrown m)) H (r, s)
  unfolding Run
  Run-says P Q H (ok a) s p = p
  Run-says P Q H (thrown m) s q = (q, refl)
  Run-says P Q H hangs s h = h

module _ {S A B : Type 0} where
  -- the rest starts from the answer that the body gave
  pub Run-bind-answer :
      (P' : A → S → Type 0) (P : B → S → Type 0) (Q : String → S → Type 0) (H : S → Type 0)
      (r : Result A) (rest : A → Exec S B) (s : S)
      → Run P' Q H (r, s)
      → ((a : A) → r ≡ ok a → P' a s → Run P Q H (rest a s))
      → Run P Q H (go_on r s rest)
  unfolding Run
  Run-bind-answer P' P Q H (ok a) rest s p next = next a refl p
  Run-bind-answer P' P Q H (thrown message) rest s q next = q
  Run-bind-answer P' P Q H hangs rest s p next = p

  pub Run-bind :
      (P' : A → S → Type 0) (P : B → S → Type 0) (Q : String → S → Type 0) (H : S → Type 0)
      (r : Result A) (rest : A → Exec S B) (s : S)
      → Run P' Q H (r, s)
      → ((a : A) (s' : S) → P' a s' → Run P Q H (rest a s'))
      → Run P Q H (go_on r s rest)
  unfolding Run
  Run-bind P' P Q H (ok a) rest s p next = next a s p
  Run-bind P' P Q H (thrown message) rest s q next = q
  Run-bind P' P Q H hangs rest s p next = p
