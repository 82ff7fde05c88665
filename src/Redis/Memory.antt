-- ===== src/Redis/Memory.antt =====
-- A Redis in memory that always answers: it meets the laws.
use salesforce_tiktok_crm.Base.{
  ℕ, ◌+◌, ◌*◌, String, true, false, ◌≡◌, refl, Option, none, some, ◌==◌, ltb, arith, if◌then◌else◌,
}
use salesforce_tiktok_crm.Exec.{ok}
use salesforce_tiktok_crm.Redis.{Redis, RedisLaws, is_none}

-- a value and the time at which it ends
abbrev pub Keys : Type 0
Keys = String → Option (String × ℕ)

abbrev pub empty : Keys
empty k = none

abbrev alive : ℕ → Option (String × ℕ) → Option String
alive t none = none
alive t (some (v, end)) = if ltb t end then some v else none

abbrev held : Keys → ℕ → String → Option String
held keys t k = alive t (keys k)

abbrev write : String → Option (String × ℕ) → Keys → Keys
write k entry keys j = if k == j then entry else keys j

abbrev pub memory : Redis
memory = record {
  Conn = Keys;
  set_nx = λ k v ttl now c.
      if is_none (held c now k)
      then (ok true, write k (some (v, now + 1000 * ttl)) c)
      else (ok false, c);
  set_ex = λ k v ttl now c. (ok tt, write k (some (v, now + 1000 * ttl)) c);
  get = λ k now c. (ok (held c now k), c);
  del = λ k now c. (ok tt, write k none c);
  getdel = λ k now c. (ok (held c now k), write k none c);
  value = held;
}

held-write :
    (k j : String) (v : String) (end t : ℕ) (c : Keys)
    → held (write k (some (v, end)) c) t j
      ≡ (if k == j then alive t (some (v, end)) else held c t j)
held-write k j v end t c = ground arith

held-write-none :
    (k j : String) (t : ℕ) (c : Keys)
    → held (write k none c) t j ≡ (if k == j then none else held c t j)
held-write-none k j t c = ground arith

pub memory-RedisLaws : RedisLaws memory
memory-RedisLaws = record {
  set_nx_answer = λ k v ttl now c b h. ground arith;
  set_nx_value = λ k v ttl now c b t j h le. ground arith;
  set_nx_other = λ k v ttl now c t j h. ground arith;
  set_nx_held = λ k v old ttl now c t j h le. rw h refl;
  set_ex_value = λ k v ttl now c t j h le. held-write k j v _ t c;
  set_ex_other = λ k v ttl now c t j h. ground arith;
  get_answer = λ k now c o h. ground arith;
  get_value = λ k now c t j. refl;
  del_value = λ k now c t j h. held-write-none k j t c;
  getdel_answer = λ k now c o h. ground arith;
  getdel_value = λ k now c o t j h. held-write-none k j t c;
}
