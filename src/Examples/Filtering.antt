-- ===== src/Examples/Filtering.antt =====
-- The filter, the normalisers, the score and the builder on sample data.
use mathlib.Core.List.{Memᴰ}
use mathlib.Core.List.Memᴰ.{head}
use salesforce_tiktok_crm.Base.{String, true, false, ◌≡◌, refl, ◌↔◌, inl, some, [], ◌∷◌, All}
use salesforce_tiktok_crm.Text.{trim, keep_digits}
use salesforce_tiktok_crm.Text.Case.{ascii_lower, ascii_lower-CaseLaws}
use salesforce_tiktok_crm.Types.{submit_form, named, inherited, standard}
use salesforce_tiktok_crm.Filter.{member, evaluate, pii_only_fields}
use salesforce_tiktok_crm.Filter.Table.{status_table}
use salesforce_tiktok_crm.Filter.Triggers.{Passes, Triggers, evaluate_iff}
use salesforce_tiktok_crm.Filter.Status.{
  with_status, evaluate-status_table, evaluate-inherited, evaluate-lower_trim,
}
use salesforce_tiktok_crm.Normalization.{phone, e164}
use salesforce_tiktok_crm.Normalization.Phone.{IsInternational, phone-IsInternational}
use salesforce_tiktok_crm.Examples.{change, status_change}

evaluate_iff_example :
    Passes (evaluate ascii_lower (change "CREATE" [])) (named (standard submit_form))
    ↔ Triggers ascii_lower (change "CREATE" []) (named (standard submit_form))
evaluate_iff_example = evaluate_iff ascii_lower (change "CREATE" []) (named (standard submit_form))

status_changes :
    (member "IsConverted" ("Status" ∷ []) ≡ false) × (member "Status" ("Status" ∷ []) ≡ true)
unfolding member
status_changes = (refl, refl)

first_row : Memᴰ (trim (ascii_lower "New "), submit_form) status_table
unfolding trim ascii_lower status_table
first_row = head refl

constructor_text : trim (ascii_lower "Constructor") ≡ "constructor"
unfolding trim ascii_lower
constructor_text = refl

evaluate-status_table_example :
    Passes (evaluate ascii_lower (with_status status_change "New ")) (named (standard submit_form))
evaluate-status_table_example =
    evaluate-status_table ascii_lower status_change "New " submit_form
      (refl, refl, status_changes.0, status_changes.1) first_row

evaluate-inherited_example :
    (shown : String) × Passes
      (evaluate ascii_lower (with_status status_change "Constructor"))
      (inherited shown)
evaluate-inherited_example =
    evaluate-inherited ascii_lower status_change "Constructor"
      (refl, refl, status_changes.0, status_changes.1) (inl constructor_text)

evaluate-lower_trim_example :
    evaluate ascii_lower (with_status status_change (trim (ascii_lower " WON ")))
    ≡ evaluate ascii_lower (with_status status_change " WON ")
evaluate-lower_trim_example =
    evaluate-lower_trim ascii_lower ascii_lower-CaseLaws status_change " WON "

created-Passes : Passes (evaluate ascii_lower (change "CREATE" [])) (named (standard submit_form))
unfolding evaluate
created-Passes = (refl, refl)

email_is_pii : All (λ f. member f pii_only_fields ≡ true) ("Email" ∷ "Phone" ∷ [])
unfolding member pii_only_fields
email_is_pii = (refl, (refl, tt))

phone_runs : phone (some "(415) 555-0100") "1" ≡ some "+14155550100"
unfolding phone keep_digits e164
phone_runs = refl

phone-IsInternational_example :
    IsInternational "+14155550100" × (phone (some "+14155550100") "1" ≡ some "+14155550100")
phone-IsInternational_example =
    phone-IsInternational (some "(415) 555-0100") "+14155550100" phone_runs

same_digits : keep_digits "415.555.0100" ≡ keep_digits "(415) 555-0100"
unfolding keep_digits
same_digits = refl
