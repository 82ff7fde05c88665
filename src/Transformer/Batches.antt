-- ===== src/Transformer/Batches.antt =====
-- Chunking events into batches.
use mathlib.Core.List.{flatten}
use salesforce_tiktok_crm.Base.{
  ℕ, zero, suc, ◌+◌, ◌-◌, ◌≤◌, ◌<◌, ◌≡◌, refl, sym, ◌∙◌, ap, Option, none, some, List, [], ◌∷◌,
  ◌++◌, arith, ltb, length, length-append, drop, take-append-drop, length-take, length-drop,
  drop-drop, drop_of_length-le, Bool-cases, inl, inr, ltb→lt,
}
use salesforce_tiktok_crm.Transformer.{slice, batches_from, batch_events}

module _ {ℓ} {A : Type ℓ} where
  -- All batches but the last are full, and the last holds at least one event.
  abbrev pub Chunked : ℕ → List (List A) → Type 0
  Chunked n [] = Unit
  Chunked n (b ∷ []) = (0 < length b) × (length b ≤ n)
  Chunked n (b ∷ c ∷ rest) = (length b ≡ n) × Chunked n (c ∷ rest)

  flatten_pos :
      (n : ℕ) (c : List A) (rest : List (List A))
      → 0 < n
      → Chunked n (c ∷ rest)
      → 0 < length (flatten (c ∷ rest))
  unfolding flatten
  flatten_pos n c [] pos h = omega (arith, length-append c (flatten []))
  flatten_pos n c (d ∷ rest) pos h = omega (arith, length-append c (flatten (d ∷ rest)))

  Chunked-cons :
      (n : ℕ) (b : List A) (rest : List (List A))
      → 0 < n
      → 0 < length b
      → length b ≤ n
      → (0 < length (flatten rest) → length b ≡ n)
      → Chunked n rest
      → Chunked n (b ∷ rest)
  Chunked-cons n b [] pos some_event fits full h = (some_event, fits)
  Chunked-cons n b (c ∷ rest) pos some_event fits full h = (full (flatten_pos n c rest pos h), h)

  -- What the loop returns from index `i`.
  abbrev Batched : ℕ → ℕ → List A → Option (List (List A)) → Type ℓ
  Batched i n xs result =
      (out : List (List A)) × (result ≡ some out) × (flatten out ≡ drop i xs) × Chunked n out

  length-slice :
      (i n : ℕ) (xs : List A)
      → i < length xs
      → (length (slice i n xs) ≤ n)
        × (0 < n → 0 < length (slice i n xs))
        × (0 < length (drop (i + n) xs) → length (slice i n xs) ≡ n)
  unfolding slice
  length-slice i n xs h =
      let size = length-take n (drop i xs) in
      let rest = length-drop i xs in
      let after = length-drop (i + n) xs in (omega arith, λ pos. omega arith, λ more. omega arith)

  batches_from_lem :
      (fuel i n : ℕ) (xs : List A)
      → 0 < n
      → length xs - i < fuel
      → Batched i n xs (batches_from fuel i n xs)
  unfolding batches_from flatten
  batches_from_lem zero i n xs pos enough = absurd (omega arith)
  batches_from_lem (suc fuel) i n xs pos enough = elim (Bool-cases (ltb i (length xs))) [
    | inr done ↦ ([], rw done refl, sym (drop_of_length-le i xs (ground arith)), tt)
    | inl more ↦
        let (out, returned, whole, chunked) =
          batches_from_lem fuel (i + n) n xs pos (ground arith) in
        let (fits, some_event, full) = length-slice i n xs (ltb→lt i (length xs) more) in
        (
          slice i n xs ∷ out,
          rw (more, returned) refl,
          ap (λ (rest : List A). slice i n xs ++ rest) (whole ∙ sym (drop-drop n i xs))
              ∙ take-append-drop n (drop i xs),
          Chunked-cons n (slice i n xs) out pos (some_event pos) fits
              (λ (p : 0 < length (flatten out)). full (rw (← whole) p)) chunked,
        )
  ]

  -- With a batch size of at least 1 the loop ends, its batches are the events in order, all are of
  -- the batch size but the last, and no batch is empty.
  pub batch_events_total :
      (n : ℕ) (xs : List A)
      → 0 < n
      → (out : List (List A)) × (batch_events n xs ≡ some out) × (flatten out ≡ xs) × Chunked n out
  unfolding batch_events drop
  batch_events_total n xs pos = batches_from_lem (suc (length xs)) 0 n xs pos (omega arith)

  -- With a batch size of 0 the loop never ends, whatever the fuel, unless there are no events.
  pub batches_from-zero : (fuel : ℕ) (x : A) (xs : List A) → batches_from fuel 0 0 (x ∷ xs) ≡ none
  unfolding batches_from
  batches_from-zero zero x xs = refl
  batches_from-zero (suc fuel) x xs = ground (arith, batches_from-zero fuel x xs)
