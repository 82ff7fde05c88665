-- ===== src/World/Settled.antt =====
-- Runs that settle.
use salesforce_tiktok_crm.Base.{ℕ, String, ◌≢◌, refl}
use salesforce_tiktok_crm.Exec.{Result, ok, thrown, hangs, Exec, return, recover_from, go_on}
use salesforce_tiktok_crm.Exec.Rules.{Run, Run-bind, Run-recover}
use salesforce_tiktok_crm.Redis.{Redis}
use salesforce_tiktok_crm.Clients.RateLimiter.{RateLimiter}
use salesforce_tiktok_crm.World.{
  Tables, Outside, World, Fate, answered, refused, broken, query, run_statement, command,
}

-- No command of Redis hangs.
pub record Responsive (R : Redis) : Type 0 where
  pub set_nx : (k v : String) (ttl now : ℕ) (c : R.Conn) → (R.set_nx k v ttl now c).0 ≢ hangs
  pub set_ex : (k v : String) (ttl now : ℕ) (c : R.Conn) → (R.set_ex k v ttl now c).0 ≢ hangs
  pub get : (k : String) (now : ℕ) (c : R.Conn) → (R.get k now c).0 ≢ hangs

-- The same of the commands that delete.
pub record AllResponsive (R : Redis) : Type 0 where
  pub responsive : Responsive R
  pub del : (k : String) (now : ℕ) (c : R.Conn) → (R.del k now c).0 ≢ hangs
  pub getdel : (k : String) (now : ℕ) (c : R.Conn) → (R.getdel k now c).0 ≢ hangs

pub thrown-ne-hangs : (A : Type 0) (m : String) → ◌≢◌ {A = Result A} (thrown m) hangs
thrown-ne-hangs A m h = cc

module _ {R : Redis} (K : RateLimiter → ℕ → Type 0) where
  -- The run returns or throws, and leaves a rate limiter and a time of which K holds.
  abbrev pub Settles : {A : Type 0} → Result A × World R → Type 0
  Settles p = Run (λ _ w. K w.limiter w.now) (λ _ w. K w.limiter w.now) (λ _. ⊥) p

  pub Settles-run :
      {A : Type 0} (r : Result A) (w : World R) → r ≢ hangs → K w.limiter w.now → Settles (r, w)
  unfolding Run
  Settles-run (ok a) w h k = k
  Settles-run (thrown m) w h k = k
  Settles-run hangs w h k = h refl

  pub Settles-return : {A : Type 0} (a : A) (w : World R) → K w.limiter w.now → Settles (return a w)
  unfolding Run
  Settles-return a w k = k

  pub Settles-bind :
      {A B : Type 0} (r : Result A) (rest : A → Exec (World R) B) (w : World R)
      → Settles (r, w)
      → ((a : A) (w' : World R) → K w'.limiter w'.now → Settles (rest a w'))
      → Settles (go_on r w rest)
  Settles-bind r rest w = Run-bind _ _ _ _ r rest w

  pub Settles-recover :
      {A : Type 0} (r : Result A) (handler : String → Exec (World R) A) (w : World R)
      → Settles (r, w)
      → ((m : String) (w' : World R) → K w'.limiter w'.now → Settles (handler m w'))
      → Settles (recover_from r w handler)
  Settles-recover r handler w = Run-recover _ _ _ _ r handler w

  pub command-Settles :
      {A : Type 0} (f : R.Conn → Result A × R.Conn) (w : World R)
      → (f w.redis).0 ≢ hangs
      → K w.limiter w.now
      → Settles (command f w)
  unfolding command
  command-Settles f w h k = Settles-run (f w.redis).0 _ h k

  pub query-Settles :
      {A : Type 0} (outside : Outside) (f : Tables → A × Tables) (w : World R)
      → K w.limiter w.now
      → Settles (query outside f w)
  unfolding query Run
  query-Settles outside f w k = by_fate (outside.statement w.statements)
    where
      by_fate : (fate : Fate) → Settles (run_statement fate f w)
      by_fate answered = k
      by_fate (refused m) = k
      by_fate (broken m) = k
