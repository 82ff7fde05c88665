-- ===== src/EventSet/Manager/Provisioning.antt =====
-- What `provision` comes to.
use salesforce_tiktok_crm.Base.{
  ◌≤◌, length, arith, ℕ, suc, String, ◌≡◌, refl, ◌∙◌, ap, Option, some, List, [], ◌∷◌,
}
use salesforce_tiktok_crm.Config.{Env}
use salesforce_tiktok_crm.Exec.{Result, ok, thrown, hangs, return}
use salesforce_tiktok_crm.Exec.Rules.{Run, Run-bind, Run-recover}
use salesforce_tiktok_crm.Redis.{Redis}
use salesforce_tiktok_crm.Types.EventSets.{
  CrmEventSet, ProvisionResult, selected_existing, created_new, multiple_found, error,
}
use salesforce_tiktok_crm.World.{
  list_call, create_call, Outside, World, auto_created, auto_selected,
}
use salesforce_tiktok_crm.World.Running.{return-Run}
use salesforce_tiktok_crm.World.Settled.{Responsive}
use salesforce_tiktok_crm.EventSet.{find_event_set}
use salesforce_tiktok_crm.EventSet.Storage.RoundTrip.{stored_id}
use salesforce_tiktok_crm.EventSet.Manager.{event_set_name, provision_sets, provision}
use salesforce_tiktok_crm.EventSet.Manager.Steps.{
  Run-ends, Any, Stored, Listed, Created, Made, Answered, list-Run, store-Run, create-Run,
}

module _ {R : Redis} (answers : Responsive R) (outside : Outside) (env : Env)
    (day : ℕ → String) where
  -- what each outcome says of the table and of the calls that were made
  abbrev pub Outcome :
      (id token : String) → Option String → World R → ProvisionResult → World R → Type 0
  Outcome id token name w₀ (selected_existing s) w =
      Answered outside w₀ (s ∷ [])
      × Stored id s.event_set_id (list_call token id ∷ w₀.calls) w.tables w.calls
  Outcome id token name w₀ (created_new s) w =
      Answered outside w₀ []
      × (stored_id (find_event_set id w.tables.event_sets) ≡ some s.event_set_id)
      × Created day (list_call token id ∷ w₀.calls) id token name w
      × Made outside (suc w₀.call_count) id s
  Outcome id token name w₀ (multiple_found sets) w =
      Answered outside w₀ sets × (2 ≤ length sets) × Listed w₀ w id token
  Outcome id token name w₀ (error m) w = Unit

  provision_sets-Run :
      (id token : String) (name : Option String) (sets : List CrmEventSet) (w₀ w : World R)
      → Listed w₀ w id token
      → Answered outside w₀ sets
      → Run-ends
          (Outcome id token name w₀)
          Any
          (provision_sets outside env day id token name sets w)
  unfolding provision_sets
  provision_sets-Run id token name [] w₀ w k answered =
      Run-bind (λ made v. Created day w.calls id token name v × Made outside w.call_count id made) _
        _ _ _ _ _ (create-Run answers outside env day id token name w)
        (λ made w' ((time, c), from_answer).
          Run-bind (λ _ v. Stored id made.event_set_id w'.calls v.tables v.calls) _ _ _ _ _ _
            (store-Run answers outside env day id made auto_created w')
            (λ _ v s.
              let calls =
                s.1 ∙ c ∙ ap (◌∷◌ (create_call token id (event_set_name day time name))) k.0 in
              return-Run (Outcome id token name w₀) _ _ (created_new made) v
                (answered, s.0, (time, calls), rw (← k.2) from_answer)))
  provision_sets-Run id token name (s ∷ []) w₀ w k answered =
      Run-bind (λ _ v. Stored id s.event_set_id w.calls v.tables v.calls) _ _ _ _ _ _
        (store-Run answers outside env day id s auto_selected w)
        (λ _ v e.
          return-Run (Outcome id token name w₀) _ _ (selected_existing s) v
            (answered, (e.0, e.1 ∙ k.0)))
  provision_sets-Run id token name (s ∷ t ∷ ss) w₀ w k answered =
      return-Run (Outcome id token name w₀) _ _ (multiple_found (s ∷ t ∷ ss)) w
        (answered, omega arith, k)

  abbrev pub Provisioned :
      (id token : String) → Option String → World R → Result ProvisionResult × World R → Type 0
  Provisioned id token name w₀ p = Run (Outcome id token name w₀) (λ _ _. ⊥) (λ _. ⊥) p

  Provisioned-error :
      (id token : String) (name : Option String) (w₀ w : World R) (m : String)
      → Provisioned id token name w₀ (return (error m) w)
  unfolding Run
  Provisioned-error id token name w₀ w m = tt

  pub provision-Run :
      (id token : String) (name : Option String) (w : World R)
      → Provisioned id token name w (provision outside env day id token name w)
  unfolding provision
  provision-Run id token name w =
      Run-recover _ _ (λ _. Any) _ _ _ _
        (Run-bind (λ sets v. Listed w v id token × Answered outside w sets)
          (Outcome id token name w) (λ _. Any) _ _ _ _ (list-Run answers outside env day id token w)
          (λ sets v k. provision_sets-Run id token name sets w v k.0 k.1))
        (λ m v _. Provisioned-error id token name w v m)

  returned :
      (id token : String) (name : Option String) (w₀ : World R) (r : Result ProvisionResult)
      (w : World R)
      → Provisioned id token name w₀ (r, w)
      → (a : ProvisionResult) × (r ≡ ok a) × Outcome id token name w₀ a w
  unfolding Run
  returned id token name w₀ (ok a) w p = (a, refl, p)
  returned id token name w₀ (thrown m) w p = absurd p
  returned id token name w₀ hangs w p = absurd p

  -- Where no command of Redis hangs, `provision` returns, whatever TikTok and Postgres answer. Unless
  -- it returns an error, TikTok was asked once for the list and answered with code 0. Where the list
  -- was empty, it was asked to create a set, under the name given or the default, and answered with
  -- code 0; the set that is returned has the id and the name of that answer, and its id is in the
  -- advertiser's row; where the list had one set, that one is in the row, and nothing
  -- else was called; where it had more, they are returned and the tables are as they were.
  pub provision-Outcome :
      (id token : String) (name : Option String) (w : World R)
      → (a : ProvisionResult) × ((provision outside env day id token name w).0 ≡ ok a)
        × Outcome id token name w a (provision outside env day id token name w).1
  provision-Outcome id token name w = returned id token name w _ _ (provision-Run id token name w)
