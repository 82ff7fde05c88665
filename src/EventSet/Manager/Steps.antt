-- ===== src/EventSet/Manager/Steps.antt =====
-- The calls of the manager and `store`, and what each of them changes.
use salesforce_tiktok_crm.Base.{ℕ, suc, String, ◌≡◌, refl, ◌∙◌, Option, some, List, ◌∷◌, eq_refl}
use salesforce_tiktok_crm.Config.{Env}
use salesforce_tiktok_crm.Exec.{Result}
use salesforce_tiktok_crm.Exec.Rules.{Run, Run-bind, Run-recover}
use salesforce_tiktok_crm.Redis.{Redis}
use salesforce_tiktok_crm.Types.EventSets.{CrmEventSet, CrmListResponse, CrmCreateResponse}
use salesforce_tiktok_crm.World.{
  ApiCall, reply, list_call, create_call, EventSetSource, Tables, Outside, World,
}
use salesforce_tiktok_crm.World.Running.{return-Run, query-Run, call-Run, command-Run}
use salesforce_tiktok_crm.World.Settled.{Responsive}
use salesforce_tiktok_crm.Auth.OAuthClient.Checking.{assert_success-Run}
use salesforce_tiktok_crm.EventSet.{cache_key, cache_ttl, find_event_set, warm_cache}
use salesforce_tiktok_crm.EventSet.Storage.{upsert_row, stored_row, on_sets, store}
use salesforce_tiktok_crm.EventSet.Storage.RoundTrip.{stored_id, find_event_set-upsert_row}
use salesforce_tiktok_crm.EventSet.Manager.{or_empty, created_set, event_set_name, list, create}

-- Ends in a state of which P or, after an error, Q holds.
abbrev pub Run-ends :
    {R : Redis} {A : Type 0} (P : A → World R → Type 0) (Q : World R → Type 0)
    → Result A × World R
    → Type 0
Run-ends P Q p = Run P (λ _. Q) (λ _. ⊥) p

abbrev pub Any : {R : Redis} → World R → Type 0
Any w = Unit {0}

abbrev pub Stored : String → String → List ApiCall → Tables → List ApiCall → Type 0
Stored id set calls tables calls' =
    (stored_id (find_event_set id tables.event_sets) ≡ some set) × (calls' ≡ calls)

-- What is known once the list is there.
abbrev pub Listed : {R : Redis} (w₀ w : World R) → (id token : String) → Type 0
Listed w₀ w id token =
    (w.calls ≡ list_call token id ∷ w₀.calls)
    × (w.tables ≡ w₀.tables)
    × (w.call_count ≡ suc w₀.call_count)

-- The name that is sent is the one asked for, or has the day.
abbrev pub Created :
    {R : Redis} (day : ℕ → String) (calls : List ApiCall)
    → (id token : String) → Option String
    → World R
    → Type 0
Created day calls id token name w =
    (time : ℕ) × (w.calls ≡ create_call token id (event_set_name day time name) ∷ calls)

-- TikTok's answer to the call for the list.
abbrev pub Answered : {R : Redis} → Outside → World R → List CrmEventSet → Type 0
Answered outside w₀ sets =
    (answer : CrmListResponse) × (outside.list_sets w₀.call_count ≡ reply answer)
    × (answer.code ≡ 0)
    × (or_empty answer.list ≡ sets)

-- The set is the one that TikTok's answer to the n-th call says was created.
abbrev pub Made : Outside → ℕ → String → CrmEventSet → Type 0
Made outside n id made =
    (answer : CrmCreateResponse) × (outside.create_set n ≡ reply answer)
    × (answer.code ≡ 0)
    × (made.event_set_id ≡ answer.event_set_id)
    × (made.name ≡ answer.name)
    × (made.advertiser_id ≡ id)

module _ {R : Redis} (answers : Responsive R) (outside : Outside) (env : Env)
    (day : ℕ → String) where
  -- the write of the cache changes neither the tables nor what was called
  warm_cache-Run :
      (K : Tables → List ApiCall → Type 0) (id set : String) (w : World R)
      → K w.tables w.calls
      → Run-ends (λ _ w'. K w'.tables w'.calls) Any (warm_cache outside env id set w)
  unfolding warm_cache
  warm_cache-Run K id set w k =
      Run-recover _ _ (λ _ w'. K w'.tables w'.calls) _ _ _ _
        (command-Run _ _ _ (R.set_ex (cache_key id) set cache_ttl w.now) w
          (answers.set_ex _ _ _ _ _) (λ a. k) (λ m. k))
        (λ m w' k'. return-Run (λ _ w'. K w'.tables w'.calls) _ _ tt w' k')

  pub store-Run :
      (id : String) (set : CrmEventSet) (source : EventSetSource) (w : World R)
      → Run-ends
          (λ _ w'. Stored id set.event_set_id w.calls w'.tables w'.calls)
          Any
          (store outside env id set source w)
  unfolding store
  store-Run id set source w =
      Run-bind (λ _ w'. Stored id set.event_set_id w.calls w'.tables w'.calls) _ _ _ _ _ _
        (query-Run _ _ _ outside (on_sets (upsert_row (stored_row id set source w.now))) w
          (
            find_event_set-upsert_row (stored_row id set source w.now) w.tables.event_sets id
                ∙ rw (eq_refl id) refl,
            refl,
          )
          (λ m. tt) (λ m. tt))
        (λ _ w' k. warm_cache-Run (Stored id set.event_set_id w.calls) id set.event_set_id w' k)

  pub list-Run :
      (id token : String) (w₀ : World R)
      → Run-ends
          (λ sets w. Listed w₀ w id token × Answered outside w₀ sets)
          Any
          (list outside env day id token w₀)
  unfolding list
  list-Run id token w₀ =
      Run-bind (λ answer w. Listed w₀ w id token × (outside.list_sets w₀.call_count ≡ reply answer))
        _ _ _ _ _ _
        (call-Run _ _ _ outside (list_call token id) outside.list_sets w₀
          (λ a e. ((refl, refl, refl), e)) (λ m. tt))
        (λ answer w k.
          Run-bind (λ _ v. Listed w₀ v id token × (answer.code ≡ 0)) _ _ _ _ _ _
            (assert_success-Run (λ v. Listed w₀ v id token × (answer.code ≡ 0)) _ _ answer.code
              answer.message _ w (λ zero. (k.0, zero)) tt)
            (λ _ w' k'.
              return-Run (λ sets v. Listed w₀ v id token × Answered outside w₀ sets) _ _
                (or_empty answer.list) w' (k'.0, (answer, k.1, k'.1, refl))))

  pub create-Run :
      (id token : String) (name : Option String) (w₀ : World R)
      → Run-ends
          (λ made w. Created day w₀.calls id token name w × Made outside w₀.call_count id made)
          Any
          (create outside env day id token name w₀)
  unfolding create
  create-Run id token name w₀ =
      Run-bind
        (λ answer w.
          Created day w₀.calls id token name w × (outside.create_set w₀.call_count ≡ reply answer))
        _ _ _ _ _ _
        (call-Run _ _ _ outside (create_call token id (event_set_name day w₀.now name))
          outside.create_set w₀ (λ a e. ((w₀.now, refl), e)) (λ m. tt))
        (λ answer w k.
          Run-bind (λ _ v. Created day w₀.calls id token name v × (answer.code ≡ 0)) _ _ _ _ _ _
            (assert_success-Run (λ v. Created day w₀.calls id token name v × (answer.code ≡ 0)) _ _
              answer.code answer.message _ w (λ zero. (k.0, zero)) tt)
            (λ _ w' k'.
              return-Run
                (λ made v.
                  Created day w₀.calls id token name v × Made outside w₀.call_count id made)
                _ _ (created_set id answer w'.now) w'
                (k'.0, (answer, k.1, k'.1, refl, refl, refl))))
