-- ===== src/Redis.antt =====
-- The Redis commands that the program sends, as an interface. Redis is a service: what it does is
-- a parameter of the model, and what the program relies on is the record of laws. Times are in
-- milliseconds, lifetimes in seconds.
pub mod Memory
use salesforce_tiktok_crm.Base.{
  ℕ, ◌+◌, ◌*◌, ◌≤◌, String, Bool, true, false, ◌≡◌, ◌&&◌, Option, none, some, ◌==◌, ltb,
  if◌then◌else◌,
}
use salesforce_tiktok_crm.Exec.{Result, ok}

-- Each command is given the time, and answers or throws.
pub record Redis : Type 1 where
  pub Conn : Type 0
  -- `SET key value EX ttl NX`: true for "OK", false for null
  pub set_nx : String → String → ℕ → ℕ → Conn → Result Bool × Conn
  -- `SET key value EX ttl`
  pub set_ex : String → String → ℕ → ℕ → Conn → Result (Unit {0}) × Conn
  pub get : String → ℕ → Conn → Result (Option String) × Conn
  pub del : String → ℕ → Conn → Result (Unit {0}) × Conn
  pub getdel : String → ℕ → Conn → Result (Option String) × Conn
  -- the value that a key holds at a time, if nothing is written in between
  pub value : Conn → ℕ → String → Option String

abbrev pub is_none : Option String → Bool
is_none none = true
is_none (some s) = false

-- a value written at `now` with a lifetime, seen at `t`
abbrev pub lives : String → ℕ → ℕ → ℕ → Option String
lives v ttl now t = if ltb t (now + 1000 * ttl) then some v else none

-- Documented behaviour. A command that throws may or may not have been carried out, and leaves the
-- other keys alone.
pub record RedisLaws (R : Redis) : Type 0 where
  pub set_nx_answer :
      (k v : String) (ttl now : ℕ) (c : R.Conn) (b : Bool)
      → (R.set_nx k v ttl now c).0 ≡ ok b
      → b ≡ is_none (R.value c now k)
  pub set_nx_value :
      (k v : String) (ttl now : ℕ) (c : R.Conn) (b : Bool) (t : ℕ) (j : String)
      → (R.set_nx k v ttl now c).0 ≡ ok b
      → now ≤ t
      → R.value (R.set_nx k v ttl now c).1 t j
        ≡ (if b && (k == j) then lives v ttl now t else R.value c t j)
  pub set_nx_other :
      (k v : String) (ttl now : ℕ) (c : R.Conn) (t : ℕ) (j : String)
      → (k == j) ≡ false
      → R.value (R.set_nx k v ttl now c).1 t j ≡ R.value c t j
  -- a key that is held is not written
  pub set_nx_held :
      (k v held : String) (ttl now : ℕ) (c : R.Conn) (t : ℕ) (j : String)
      → R.value c now k ≡ some held
      → now ≤ t
      → R.value (R.set_nx k v ttl now c).1 t j ≡ R.value c t j
  pub set_ex_value :
      (k v : String) (ttl now : ℕ) (c : R.Conn) (t : ℕ) (j : String)
      → (R.set_ex k v ttl now c).0 ≡ ok tt
      → now ≤ t
      → R.value (R.set_ex k v ttl now c).1 t j
        ≡ (if k == j then lives v ttl now t else R.value c t j)
  pub set_ex_other :
      (k v : String) (ttl now : ℕ) (c : R.Conn) (t : ℕ) (j : String)
      → (k == j) ≡ false
      → R.value (R.set_ex k v ttl now c).1 t j ≡ R.value c t j
  pub get_answer :
      (k : String) (now : ℕ) (c : R.Conn) (o : Option String)
      → (R.get k now c).0 ≡ ok o
      → o ≡ R.value c now k
  pub get_value :
      (k : String) (now : ℕ) (c : R.Conn) (t : ℕ) (j : String)
      → R.value (R.get k now c).1 t j ≡ R.value c t j
  pub del_value :
      (k : String) (now : ℕ) (c : R.Conn) (t : ℕ) (j : String)
      → (R.del k now c).0 ≡ ok tt
      → R.value (R.del k now c).1 t j ≡ (if k == j then none else R.value c t j)
  pub getdel_answer :
      (k : String) (now : ℕ) (c : R.Conn) (o : Option String)
      → (R.getdel k now c).0 ≡ ok o
      → o ≡ R.value c now k
  pub getdel_value :
      (k : String) (now : ℕ) (c : R.Conn) (o : Option String) (t : ℕ) (j : String)
      → (R.getdel k now c).0 ≡ ok o
      → R.value (R.getdel k now c).1 t j ≡ (if k == j then none else R.value c t j)
