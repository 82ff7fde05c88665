-- ===== src/Auth/TokenStore/States.antt =====
-- The state parameter of an authorization is used once.
use salesforce_tiktok_crm.Base.{
  ℕ, ◌+◌, ◌*◌, ◌≤◌, String, ◌≡◌, refl, ◌∙◌, Option, none, some, ltb, eq_refl, Bool-cases, inl, inr,
  if◌then◌else◌,
}
use salesforce_tiktok_crm.Text.{non_empty}
use salesforce_tiktok_crm.Exec.{ok}
use salesforce_tiktok_crm.Redis.{Redis, RedisLaws, lives}
use salesforce_tiktok_crm.World.{Outside, World}
use salesforce_tiktok_crm.Auth.TokenStore.{
  TokenCodec, state_key, oauth_state_ttl, found_state, store_state, get_and_delete_state,
}

pub found_state-some :
    (state : String)
    → non_empty state ≡ some state
    → found_state (some state) ≡ some (record { value = state; redirect_after = none })
found_state-some String.[] h = cc
found_state-some (String.◌∷◌ c s) h = refl

found_state-lives :
    (state : String) (now later : ℕ)
    → non_empty state ≡ some state
    → found_state (lives state oauth_state_ttl now later) ≡ (
        if ltb later (now + 1000 * oauth_state_ttl)
        then some (record { value = state; redirect_after = none })
        else none)
found_state-lives state now later h = elim (Bool-cases (ltb later (now + 1000 * oauth_state_ttl))) [
  | inl e ↦ rw e (found_state-some state h)
  | inr e ↦ rw e refl
]

module _ {R : Redis} where
  -- the world at another time
  abbrev pub at : ℕ → World R → World R
  at time w = record w { now = time }

module _ {R : Redis} (laws : RedisLaws R) (codec : TokenCodec) (outside : Outside) where
  pub get_and_delete_state-value :
      (state : String) (w : World R) (o : Option String)
      → (R.getdel (state_key state) w.now w.redis).0 ≡ ok o
      → get_and_delete_state codec outside state w ≡ (
        ok (found_state (R.value w.redis w.now (state_key state))),
        record w { redis = (R.getdel (state_key state) w.now w.redis).1 },
      )
  unfolding get_and_delete_state
  get_and_delete_state-value state w o h =
      rw (h, ← laws.getdel_answer (state_key state) w.now w.redis o h) refl

  -- Once a state was asked for it is not given again, at any time, where Redis answers.
  pub get_and_delete_state-twice :
      (state : String) (last : ℕ) (w : World R) (first second : Option String)
      → (R.getdel (state_key state) w.now w.redis).0 ≡ ok first
      → (R.getdel (state_key state) last (R.getdel (state_key state) w.now w.redis).1).0 ≡ ok second
      → (get_and_delete_state codec outside state
          (at last (get_and_delete_state codec outside state w).1)).0
        ≡ ok none
  get_and_delete_state-twice state last w first second taken again =
      let gone : R.value (R.getdel (state_key state) w.now w.redis).1 last (state_key state)
          ≡ none =
        laws.getdel_value (state_key state) w.now w.redis first last (state_key state) taken
        ∙ rw (eq_refl (state_key state)) refl in
      rw
        (
          get_and_delete_state-value state w first taken,
          get_and_delete_state-value state
              (at last (record w { redis = (R.getdel (state_key state) w.now w.redis).1 })) second
              again,
          gone,
        )
        refl

  -- the connection after the write of a state
  abbrev pub kept : String → World R → R.Conn
  kept state w = (R.set_ex (state_key state) state oauth_state_ttl w.now w.redis).1

  -- A state that was stored is given back within ten minutes, and not after that; once it was asked
  -- for it is not given again, at any time, where Redis answers and the state is not empty.
  pub store_state-once :
      (state : String) (later last : ℕ) (w : World R) (first second : Option String)
      → non_empty state ≡ some state
      → w.now ≤ later
      → (R.set_ex (state_key state) state oauth_state_ttl w.now w.redis).0 ≡ ok tt
      → (R.getdel (state_key state) later (kept state w)).0 ≡ ok first
      → (R.getdel (state_key state) last (R.getdel (state_key state) later (kept state w)).1).0
        ≡ ok second
      → ((get_and_delete_state codec outside state
            (at later (store_state codec outside state w).1)).0
          ≡ ok (
              if ltb later (w.now + 1000 * oauth_state_ttl)
              then some (record { value = state; redirect_after = none })
              else none))
        × ((get_and_delete_state codec outside state (
              at last
                (get_and_delete_state codec outside state
                  (at later (store_state codec outside state w).1)).1)).0
            ≡ ok none)
  unfolding store_state
  store_state-once state later last w first second some_state after stored taken again =
      let there : R.value (kept state w) later (state_key state)
          ≡ lives state oauth_state_ttl w.now later =
        laws.set_ex_value (state_key state) state oauth_state_ttl w.now w.redis later
          (state_key state) stored after
        ∙ rw (eq_refl (state_key state)) refl in
      (
        rw
            (
              get_and_delete_state-value state (at later (record w { redis = kept state w })) first
                  taken,
              there,
              found_state-lives state w.now later some_state,
            )
            refl,
        get_and_delete_state-twice state last (at later (record w { redis = kept state w })) first
            second taken again,
      )
