-- ===== src/Filter/Pii.antt =====
-- An update that only touches personal fields.
use salesforce_tiktok_crm.Base.{
  String, true, false, ◌≡◌, refl, List, [], ◌∷◌, ◌==◌, eq_iff, arith, All, Bool-cases, inl, inr,
}
use salesforce_tiktok_crm.Types.{SalesforceCdcEvent}
use salesforce_tiktok_crm.Filter.{
  member, non_pii, pii_only_fields, changed_fields_or_empty, evaluate,
}

abbrev pub IsPiiOnly : List String → Type 0
IsPiiOnly fields = All (λ f. member f pii_only_fields ≡ true) fields

non_pii-nil : (fields : List String) → IsPiiOnly fields → non_pii fields ≡ []
unfolding non_pii
non_pii-nil [] h = refl
non_pii-nil (f ∷ fs) (here, later) = rw (here, non_pii-nil fs later) refl

not_changed :
    (x : String) (fields : List String)
    → member x pii_only_fields ≡ false
    → IsPiiOnly fields
    → member x fields ≡ false
unfolding member
not_changed x [] no_pii h = refl
not_changed x (f ∷ fs) no_pii (here, later) = elim (Bool-cases (x == f)) [
  | inl same ↦ absurd (ground (arith, eq_iff x f))
  | inr other ↦ rw other (not_changed x fs no_pii later)
]

flag_is_no_pii : member "IsConverted" pii_only_fields ≡ false
unfolding member pii_only_fields
flag_is_no_pii = refl

status_is_no_pii : member "Status" pii_only_fields ≡ false
unfolding member pii_only_fields
status_is_no_pii = refl

-- An update of a Lead whose changed fields are all personal ones is skipped, with the reason that
-- says so, whatever the payload holds.
pub evaluate-pii_only :
    (lower : String → String) (ev : SalesforceCdcEvent)
    → ev.header.entity_name ≡ "Lead"
    → ev.header.change_type ≡ "UPDATE"
    → IsPiiOnly (changed_fields_or_empty ev.header.changed_fields)
    → ((evaluate lower ev).should_process ≡ false)
      × ((evaluate lower ev).reason ≡ "Only PII fields changed — no status transition")
unfolding evaluate
evaluate-pii_only lower ev lead update pii =
    rw
      (
        lead,
        update,
        not_changed "IsConverted" _ flag_is_no_pii pii,
        not_changed "Status" _ status_is_no_pii pii,
        non_pii-nil _ pii,
      )
      (refl, refl)
