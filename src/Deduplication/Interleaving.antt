-- ===== src/Deduplication/Interleaving.antt =====
-- The checks of events that are processed side by side reach Redis one by one, in some order.
use salesforce_tiktok_crm.Base.{
  ℕ, ◌+◌, ◌*◌, ◌≤◌, ◌<◌, String, Bool, true, ◌≡◌, refl, ◌∙◌, some, List, [], ◌∷◌, ◌==◌, eq_iff,
  eq_refl, ltb, arith, Bool-cases, inl, inr,
}
use salesforce_tiktok_crm.Config.{Env}
use salesforce_tiktok_crm.Exec.{ok}
use salesforce_tiktok_crm.Redis.{Redis, RedisLaws}
use salesforce_tiktok_crm.Deduplication.{dedup_key, is_duplicate}
use salesforce_tiktok_crm.Deduplication.Window.{
  dedup_key-ne, mark, is_duplicate-answer, state-is_duplicate,
}

-- A check of an event at a time.
pub record Check : Type 0 where
  pub event_id : String
  pub time : ℕ

-- The checks are in the order of their times, none before the first and none after the last.
abbrev pub InOrder : ℕ → List Check → ℕ → Type 0
InOrder first [] last = first ≤ last
InOrder first (k ∷ ks) last = (first ≤ k.time) × InOrder k.time ks last

module _ (R : Redis) (laws : RedisLaws R) (env : Env) where
  -- the connection after the checks
  unfoldable pub checked : List Check → R.Conn → R.Conn
  checked [] c = c
  checked (k ∷ ks) c = checked ks (is_duplicate R env k.event_id k.time c).1

  -- Redis holds the event's key until a time.
  abbrev Held : String → ℕ → ℕ → R.Conn → Type 0
  Held id from end c = (t : ℕ) → from ≤ t → t < end → R.value c t (dedup_key id) ≡ some "1"

  is_duplicate-Held :
      (id : String) (k : Check) (from end : ℕ) (c : R.Conn)
      → from ≤ k.time
      → k.time < end
      → Held id from end c
      → Held id k.time end (is_duplicate R env k.event_id k.time c).1
  is_duplicate-Held id k from end c after within held t later before =
      let unchanged : R.value (mark R laws env k.event_id k.time c).1 t (dedup_key id)
          ≡ R.value c t (dedup_key id) =
        elim (Bool-cases (k.event_id == id)) [
          | inl e ↦
              let same = (eq_iff k.event_id id).0 e in
              laws.set_nx_held (dedup_key k.event_id) "1" "1" env.redis_dedup_ttl_seconds k.time c t
                (dedup_key id) (rw same (held k.time after within)) later
          | inr e ↦
              laws.set_nx_other (dedup_key k.event_id) "1" env.redis_dedup_ttl_seconds k.time c t
                (dedup_key id)
                (dedup_key-ne k.event_id id (λ h. ground (arith, (eq_iff k.event_id id).1 h)))
        ] in
      rw (state-is_duplicate R laws env k.event_id k.time c)
        (unchanged ∙ held t (omega arith) before)

  InOrder-le : (first : ℕ) (ks : List Check) (last : ℕ) → InOrder first ks last → first ≤ last
  InOrder-le first [] last h = h
  InOrder-le first (k ∷ ks) last (h, rest) = let le = InOrder-le k.time ks last rest in omega arith

  checked-Held :
      (id : String) (ks : List Check) (from last end : ℕ) (c : R.Conn)
      → InOrder from ks last
      → last < end
      → Held id from end c
      → R.value (checked ks c) last (dedup_key id) ≡ some "1"
  unfolding checked
  checked-Held id [] from last end c order within held = held last order within
  checked-Held id (k ∷ ks) from last end c (after, order) within held =
      let le = InOrder-le k.time ks last order in
      checked-Held id ks k.time last end _ order within
        (is_duplicate-Held id k from end c after (omega arith) held)

  -- A check of an event that Redis answers with a new mark is followed by any checks of any events,
  -- the same one among them, in the order of their times, and Redis may answer or fail each of
  -- them. Until the configured lifetime has passed, another check of the event that Redis answers
  -- finds a duplicate.
  pub is_duplicate-interleaved :
      (id : String) (now last : ℕ) (ks : List Check) (c : R.Conn) (b : Bool)
      → (mark R laws env id now c).0 ≡ ok true
      → InOrder now ks last
      → last < now + 1000 * env.redis_dedup_ttl_seconds
      → (mark R laws env id last (checked ks (is_duplicate R env id now c).1)).0 ≡ ok b
      → (is_duplicate R env id last (checked ks (is_duplicate R env id now c).1)).0 ≡ ok true
  is_duplicate-interleaved id now last ks c b first order within answered =
      let end = now + 1000 * env.redis_dedup_ttl_seconds in
      let held : Held id now end (is_duplicate R env id now c).1 = λ t after before.
        let in_time : ltb t end ≡ true = ground (arith, before) in
        rw (state-is_duplicate R laws env id now c) (
          laws.set_nx_value (dedup_key id) "1" env.redis_dedup_ttl_seconds now c true t
            (dedup_key id) first after
          ∙ rw (eq_refl (dedup_key id), in_time) refl) in
      rw
        (
          is_duplicate-answer R laws env id last _ b answered,
          checked-Held id ks now last end _ order within held,
        )
        refl
