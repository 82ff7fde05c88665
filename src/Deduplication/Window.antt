-- ===== src/Deduplication/Window.antt =====
-- The window in which an event is a duplicate.
use text.Mathlib.TextLemmas.{append_cancel_left}
use salesforce_tiktok_crm.Base.{
  ℕ, ◌+◌, ◌*◌, ◌≤◌, String, Bool, true, false, not, ◌≡◌, refl, ◌∙◌, ap, ◌≢◌, none, ◌==◌, eq_iff,
  eq_refl, ltb, arith, Bool-cases, inl, inr,
}
use salesforce_tiktok_crm.Config.{Env}
use salesforce_tiktok_crm.Exec.{Result, ok, thrown, hangs, return, recover_from, go_on}
use salesforce_tiktok_crm.Redis.{Redis, RedisLaws, is_none, lives}
use salesforce_tiktok_crm.Deduplication.{dedup_key, is_duplicate}

dedup_key-injective : (a b : String) → dedup_key a ≡ dedup_key b → a ≡ b
unfolding dedup_key
dedup_key-injective a b h = append_cancel_left "crm:dedup:" a b h

pub dedup_key-ne : (a b : String) → a ≢ b → (dedup_key a == dedup_key b) ≡ false
dedup_key-ne a b h = elim (Bool-cases (dedup_key a == dedup_key b)) [
  | inl e ↦ absurd (h (dedup_key-injective a b ((eq_iff _ _).0 e)))
  | inr e ↦ e
]

module _ (R : Redis) (laws : RedisLaws R) (env : Env) where
  -- the command that marks an event
  abbrev pub mark : String → ℕ → R.Conn → Result Bool × R.Conn
  mark id now = R.set_nx (dedup_key id) "1" env.redis_dedup_ttl_seconds now

  -- Where Redis answers, the check reads whether the key was held.
  pub is_duplicate-answer :
      (id : String) (now : ℕ) (c : R.Conn) (b : Bool)
      → (mark id now c).0 ≡ ok b
      → is_duplicate R env id now c
        ≡ (ok (not (is_none (R.value c now (dedup_key id)))), (mark id now c).1)
  unfolding is_duplicate
  is_duplicate-answer id now c b h =
      rw (h, ← laws.set_nx_answer (dedup_key id) "1" env.redis_dedup_ttl_seconds now c b h) refl

  pub is_duplicate-thrown :
      (id : String) (now : ℕ) (c : R.Conn) (message : String)
      → (mark id now c).0 ≡ thrown message
      → is_duplicate R env id now c ≡ (ok false, (mark id now c).1)
  unfolding is_duplicate
  is_duplicate-thrown id now c message h = ground arith

  pub state-is_duplicate :
      (id : String) (now : ℕ) (c : R.Conn) → (is_duplicate R env id now c).1 ≡ (mark id now c).1
  unfolding is_duplicate
  state-is_duplicate id now c = after_answer (mark id now c).0
    where
      after_answer :
          (r : Result Bool)
          → (recover_from
              (go_on r (mark id now c).1 (λ set. return (not set))).0
              (go_on r (mark id now c).1 (λ set. return (not set))).1
              (λ _. return false)).1
            ≡ (mark id now c).1
      after_answer (ok b) = refl
      after_answer (thrown message) = refl
      after_answer hangs = refl

  is_none-lives :
      (v : String) (ttl now t : ℕ) → not (is_none (lives v ttl now t)) ≡ ltb t (now + 1000 * ttl)
  is_none-lives v ttl now t = ground arith

  -- the key after it was marked as new
  marked :
      (id : String) (now later : ℕ) (c : R.Conn) (b : Bool)
      → R.value c now (dedup_key id) ≡ none
      → now ≤ later
      → (mark id now c).0 ≡ ok b
      → R.value (mark id now c).1 later (dedup_key id)
        ≡ lives "1" env.redis_dedup_ttl_seconds now later
  marked id now later c b fresh after first =
      let new : b ≡ true = laws.set_nx_answer _ _ _ _ c b first ∙ ap is_none fresh in
      laws.set_nx_value (dedup_key id) "1" env.redis_dedup_ttl_seconds now c b later (dedup_key id)
        first after
      ∙ rw (new, eq_refl (dedup_key id)) refl

  -- An event that Redis does not know is new when it is checked, and is then a duplicate exactly
  -- until the configured lifetime has passed, where Redis answers both times.
  pub is_duplicate-window :
      (id : String) (now later : ℕ) (c : R.Conn) (b b' : Bool)
      → R.value c now (dedup_key id) ≡ none
      → now ≤ later
      → (mark id now c).0 ≡ ok b
      → (mark id later (mark id now c).1).0 ≡ ok b'
      → ((is_duplicate R env id now c).0 ≡ ok false)
        × ((is_duplicate R env id later (is_duplicate R env id now c).1).0
            ≡ ok (ltb later (now + 1000 * env.redis_dedup_ttl_seconds)))
  is_duplicate-window id now later c b b' fresh after first second = (
    rw (is_duplicate-answer id now c b first, fresh) refl,
    rw
        (
          state-is_duplicate id now c,
          is_duplicate-answer id later (mark id now c).1 b' second,
          marked id now later c b fresh after first,
        )
        (ap ok (is_none-lives "1" env.redis_dedup_ttl_seconds now later)),
  )

  -- Checking one event does not change what is known of another, whatever Redis answers.
  pub is_duplicate-other :
      (id other_id : String) (now t : ℕ) (c : R.Conn)
      → id ≢ other_id
      → R.value (is_duplicate R env id now c).1 t (dedup_key other_id)
        ≡ R.value c t (dedup_key other_id)
  is_duplicate-other id other_id now t c h =
      rw (state-is_duplicate id now c)
        (laws.set_nx_other _ _ _ now c t (dedup_key other_id) (dedup_key-ne id other_id h))
