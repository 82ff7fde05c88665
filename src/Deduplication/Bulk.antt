-- ===== src/Deduplication/Bulk.antt =====
-- Checking many events at once.
use salesforce_tiktok_crm.Base.{
  ℕ, ◌≤◌, String, Bool, true, false, not, ◌&&◌, ◌||◌, ◌≡◌, refl, ap, List, [], ◌∷◌, ◌==◌, eq_iff,
  eq_refl, arith, Bool-cases, inl, inr, if◌then◌else◌, Option,
}
use salesforce_tiktok_crm.Config.{Env}
use salesforce_tiktok_crm.Exec.{ok}
use salesforce_tiktok_crm.Redis.{Redis, RedisLaws, is_none, lives}
use salesforce_tiktok_crm.Deduplication.{dedup_key, filter_duplicates}
use salesforce_tiktok_crm.Deduplication.Window.{mark, is_duplicate-answer, dedup_key-ne}

-- The ids that are known, or stood in the list before.
unfoldable pub repeats : (String → Bool) → List String → List String
repeats known [] = []
repeats known (id ∷ ids) =
    let rest = repeats (λ j. (id == j) || known j) ids in if known id then id ∷ rest else rest

dedup_key-eq : (a b : String) → (dedup_key a == dedup_key b) ≡ (a == b)
dedup_key-eq a b = elim (Bool-cases (a == b)) [
  | inl same ↦ rw (← (eq_iff a b).0 same, eq_refl (dedup_key a), eq_refl a) refl
  | inr other ↦ rw other (dedup_key-ne a b (λ e. ground (arith, (eq_iff a b).1 e)))
]

-- what the checks know of an id
abbrev pub Knows : (R : Redis) → R.Conn → ℕ → (String → Bool) → Type 0
Knows R c now known = (j : String) → not (is_none (R.value c now (dedup_key j))) ≡ known j

is_none-fresh : (ttl now : ℕ) → 1 ≤ ttl → is_none (lives "1" ttl now now) ≡ false
is_none-fresh ttl now h = ground arith

-- A key after it was marked, where `o` was held under the key that is marked and `p` under this one.
after_mark :
    (o p : Option String) (b same : Bool) (ttl now : ℕ)
    → b ≡ is_none o
    → (same ≡ true → o ≡ p)
    → 1 ≤ ttl
    → not (is_none (if b && same then lives "1" ttl now now else p)) ≡ (same || not (is_none p))
after_mark o p true true ttl now e eq h = rw (is_none-fresh ttl now h) refl
after_mark o p true false ttl now e eq h = refl
after_mark o p false false ttl now e eq h = refl
after_mark o p false true ttl now e eq h = rw (← eq refl, ← e) refl

module _ (R : Redis) (laws : RedisLaws R) (env : Env) where
  mark-Knows :
      (id : String) (now : ℕ) (c : R.Conn) (b : Bool) (known : String → Bool)
      → 1 ≤ env.redis_dedup_ttl_seconds
      → Knows R c now known
      → (mark R laws env id now c).0 ≡ ok b
      → Knows R (mark R laws env id now c).1 now (λ j. (id == j) || known j)
  mark-Knows id now c b known ttl knows answer j =
      rw
        (
          laws.set_nx_value (dedup_key id) "1" env.redis_dedup_ttl_seconds now c b now (dedup_key j)
              answer (omega arith),
          dedup_key-eq id j,
          ← knows j,
        )
        (after_mark (R.value c now (dedup_key id)) (R.value c now (dedup_key j)) b (id == j)
          env.redis_dedup_ttl_seconds now
          (laws.set_nx_answer (dedup_key id) "1" env.redis_dedup_ttl_seconds now c b answer)
          (λ same. ap (λ k. R.value c now (dedup_key k)) ((eq_iff id j).0 same)) ttl)

  -- Where Redis answers every check and the lifetime is not 0, the bulk check of a list reports, in
  -- order, the ids that Redis holds or that stand in the list more than once, from their second
  -- occurrence on.
  pub filter_duplicates-repeats :
      (ids : List String) (now : ℕ) (c : R.Conn) (known : String → Bool)
      → 1 ≤ env.redis_dedup_ttl_seconds
      → ((id : String) (d : R.Conn) → (b : Bool) × ((mark R laws env id now d).0 ≡ ok b))
      → Knows R c now known
      → (filter_duplicates R env ids now c).0 ≡ ok (repeats known ids)
  unfolding filter_duplicates repeats
  filter_duplicates-repeats [] now c known ttl answers knows = refl
  filter_duplicates-repeats (id ∷ ids) now c known ttl answers knows =
      let (b, answer) = answers id c in
      rw
        (
          is_duplicate-answer R laws env id now c b answer,
          knows id,
          filter_duplicates-repeats ids now (mark R laws env id now c).1 (λ j. (id == j) || known j)
              ttl answers (mark-Knows id now c b known ttl knows answer),
        )
        refl
