-- ===== src/EventSet/Manager/Selecting.antt =====
-- What `select` comes to.
use salesforce_tiktok_crm.Base.{
  ℕ, String, ◌≡◌, refl, sym, ◌∙◌, ap, Option, none, some, List, [], ◌∷◌, ◌==◌, eq_iff, Bool-cases,
  inl, inr,
}
use salesforce_tiktok_crm.Config.{Env}
use salesforce_tiktok_crm.Exec.Rules.{Run-bind}
use salesforce_tiktok_crm.Redis.{Redis}
use salesforce_tiktok_crm.Types.EventSets.{CrmEventSet}
use salesforce_tiktok_crm.World.{list_call, Outside, World, manually_selected}
use salesforce_tiktok_crm.World.Running.{return-Run, throw-Run}
use salesforce_tiktok_crm.World.Settled.{Responsive}
use salesforce_tiktok_crm.EventSet.Manager.{find_set, select_found, select}
use salesforce_tiktok_crm.EventSet.Manager.Steps.{
  Run-ends, Any, Stored, Listed, Answered, list-Run, store-Run,
}

abbrev id_of : Option CrmEventSet → String
id_of none = ""
id_of (some s) = s.event_set_id

find_set-id :
    (id : String) (sets : List CrmEventSet) (s : CrmEventSet)
    → find_set id sets ≡ some s
    → s.event_set_id ≡ id
unfolding find_set
find_set-id id [] s h = cc
find_set-id id (t ∷ ts) s h = elim (Bool-cases (t.event_set_id == id)) [
  | inl e ↦
      let first : find_set id (t ∷ ts) ≡ some t = rw e refl in
      ap id_of (sym h ∙ first) ∙ (eq_iff t.event_set_id id).0 e
  | inr e ↦
      let later : find_set id (t ∷ ts) ≡ find_set id ts = rw e refl in
      find_set-id id ts s (sym later ∙ h)
]

module _ {R : Redis} (answers : Responsive R) (outside : Outside) (env : Env)
    (day : ℕ → String) where
  -- a set of TikTok's list that has the id is in the advertiser's row
  abbrev pub Selected : (id token set : String) → World R → CrmEventSet → World R → Type 0
  Selected id token set w₀ s w =
      ((sets : List CrmEventSet) × Answered outside w₀ sets × (find_set set sets ≡ some s))
      × (s.event_set_id ≡ set)
      × Stored id set (list_call token id ∷ w₀.calls) w.tables w.calls

  select_found-Run :
      (id token set : String) (sets : List CrmEventSet) (o : Option CrmEventSet) (w₀ w : World R)
      → Listed w₀ w id token
      → Answered outside w₀ sets
      → find_set set sets ≡ o
      → Run-ends (Selected id token set w₀) Any (select_found outside env day id set o w)
  unfolding select_found
  select_found-Run id token set sets none w₀ w k answered found = throw-Run _ _ _ _ w tt
  select_found-Run id token set sets (some s) w₀ w k answered found =
      let same = find_set-id set sets s found in
      Run-bind (λ _ v. Stored id s.event_set_id w.calls v.tables v.calls) _ _ _ _ _ _
        (store-Run answers outside env day id s manually_selected w)
        (λ _ v e.
          return-Run (Selected id token set w₀) _ _ s v
            ((sets, answered, found), same, (e.0 ∙ ap some same, e.1 ∙ k.0)))

  -- Where no command of Redis hangs, `select` returns or throws, whatever TikTok and Postgres
  -- answer. Where it returns, TikTok was asked once, for the advertiser's list, and answered with
  -- code 0; the set that is returned is in that list and has the id that was asked for, and that id
  -- is in the advertiser's row.
  pub select-Selected :
      (id set token : String) (w : World R)
      → Run-ends (Selected id token set w) Any (select outside env day id set token w)
  unfolding select
  select-Selected id set token w =
      Run-bind (λ sets v. Listed w v id token × Answered outside w sets) _ _ _ _ _ _
        (list-Run answers outside env day id token w)
        (λ sets v k. select_found-Run id token set sets _ w v k.0 k.1 refl)
