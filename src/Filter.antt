-- ===== src/Filter.antt =====
-- filters/event-filter.ts: which change events of a Lead become TikTok events.
pub mod Table
pub mod Triggers
pub mod Status
pub mod Pii
use Prim.Native.String
use salesforce_tiktok_crm.Base.{
  String, Bool, true, false, not, ◌||◌, Option, none, some, List, [], ◌∷◌, ◌==◌, if◌then◌else◌,
}
use salesforce_tiktok_crm.Text.{trim}
use salesforce_tiktok_crm.Types.{
  SalesforceCdcEvent, FieldValue, text, other, EventValue, named, standard, submit_form, purchase,
  event_value_text, FilterResult,
}
use salesforce_tiktok_crm.Filter.Table.{status_to_event}

infixr 65 ◌<>◌
abbrev ◌<>◌ : String → String → String
s <> t = String.◌++◌ s t

-- `xs.includes(x)`
unfoldable pub member : String → List String → Bool
member x [] = false
member x (y ∷ ys) = x == y || member x ys

unfoldable pub pii_only_fields : List String
pii_only_fields =
    "FirstName" ∷ "LastName" ∷ "Email" ∷ "Phone" ∷ "Company" ∷ "Title" ∷ "Description" ∷ "Website"
    ∷ []

-- `fields.filter((f) => !PII_ONLY_FIELDS.has(f))`
unfoldable pub non_pii : List String → List String
unfolding member pii_only_fields
non_pii [] = []
non_pii (f ∷ fs) = let rest = non_pii fs in if member f pii_only_fields then rest else f ∷ rest

-- `xs.join(', ')`
unfoldable pub join_comma : List String → String
join_comma [] = ""
join_comma (x ∷ []) = x
join_comma (x ∷ y ∷ ys) = x <> ", " <> join_comma (y ∷ ys)

-- `payload[key]`, `none` where the key is missing
unfoldable pub field_of : String → List (String × FieldValue) → Option FieldValue
field_of key [] = none
field_of key ((k, v) ∷ rest) = if k == key then some v else field_of key rest

abbrev pub changed_fields_or_empty : Option (List String) → List String
changed_fields_or_empty none = []
changed_fields_or_empty (some fs) = fs

abbrev skip : String → FilterResult
skip reason = record { should_process = false; reason = reason; event_type = none }

abbrev pass : String → EventValue → FilterResult
pass reason e = record { should_process = true; reason = reason; event_type = some e }

-- the last two returns, by what is left of the changed fields
other_result : List String → List String → FilterResult
other_result changed [] = skip "Only PII fields changed — no status transition"
other_result changed (f ∷ fs) = skip ("No actionable DFO transition in: " <> join_comma changed)

-- `toLowerCase` is a parameter: its Unicode tables are not part of the program.
module _ (lower : String → String) where
  unfoldable pub status_of : Option FieldValue → String
  status_of none = ""
  status_of (some other) = ""
  status_of (some (text raw)) = trim (lower raw)

  -- the branch of a changed Status field, after the lookup
  status_result : String → Option EventValue → FilterResult
  status_result status none = skip ("Unmapped status: \"" <> status <> "\"")
  status_result status (some mapped) =
      pass ("Status \"" <> status <> "\" → TikTok " <> event_value_text mapped) mapped

  unfoldable pub evaluate : SalesforceCdcEvent → FilterResult
  unfolding status_result other_result
  evaluate cdc_event =
      let header = cdc_event.header in
      let changed = changed_fields_or_empty header.changed_fields in
      let status = status_of (field_of "Status" cdc_event.fields) in
      if not (header.entity_name == "Lead")
      then skip ("Non-Lead entity: " <> header.entity_name)
      else if header.change_type == "CREATE"
      then pass "Lead created" (named (standard submit_form))
      else if not (header.change_type == "UPDATE")
      then skip ("Irrelevant changeType: " <> header.change_type)
      else if member "IsConverted" changed
      then pass "Lead converted (IsConverted flag set)" (named (standard purchase))
      else if member "Status" changed
      then status_result status (status_to_event status)
      else other_result changed (non_pii changed)
