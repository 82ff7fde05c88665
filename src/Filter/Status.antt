-- ===== src/Filter/Status.antt =====
-- What the filter makes of a changed Status field.
use mathlib.Core.List.{Memᴰ}
use mathlib.Core.List.Memᴰ.{head, tail}
use salesforce_tiktok_crm.Base.{
  String, Bool, true, false, not, ◌&&◌, ◌||◌, ◌≡◌, refl, sym, ap, some, List, [], ◌∷◌, ◌==◌, eq_iff,
  eq_refl, ◌⊎◌, arith, Option-cases, inl, inr,
}
use salesforce_tiktok_crm.Text.{trim}
use salesforce_tiktok_crm.Text.Case.{CaseLaws}
use salesforce_tiktok_crm.Text.Trim.{trim_idem}
use salesforce_tiktok_crm.Types.{
  TikTokStandardEvent, submit_form, purchase, EventValue, named, standard, inherited,
  TikTokEventName, SalesforceCdcEvent, text, dfo_stage_of, event_to_dfo_stage,
}
use salesforce_tiktok_crm.Filter.{field_of, status_of, evaluate, member, changed_fields_or_empty}
use salesforce_tiktok_crm.Filter.Triggers.{
  Passes, Triggers, created, converted, status_changed, evaluate_iff,
}
use salesforce_tiktok_crm.Filter.Table.{status_table, table_lookup, status_to_event}

abbrev Row : Type 0
Row = String × TikTokStandardEvent

abbrev Table : Type 0
Table = List Row

has_key : String → Table → Bool
has_key k [] = false
has_key k ((j, e) ∷ rest) = j == k || has_key k rest

distinct_keys : Table → Bool
distinct_keys [] = true
distinct_keys ((k, e) ∷ rest) = not (has_key k rest) && distinct_keys rest

has_key_of_mem :
    (k : String) (e : TikTokStandardEvent) (t : Table) → Memᴰ (k, e) t → has_key k t ≡ true
unfolding has_key
has_key_of_mem k e [] m = elim m [ ]
has_key_of_mem k e ((j, d) ∷ rest) (head same) = rw (← ap (λ (r : Row). r.0) same, eq_refl k) refl
has_key_of_mem k e ((j, d) ∷ rest) (tail m) = ground (arith, has_key_of_mem k e rest m)

table_lookup-mem :
    (k : String) (e : TikTokStandardEvent) (t : Table)
    → distinct_keys t ≡ true
    → Memᴰ (k, e) t
    → table_lookup k t ≡ some e
unfolding distinct_keys table_lookup
table_lookup-mem k e [] h m = elim m [ ]
table_lookup-mem k e ((j, d) ∷ rest) h (head same) =
    rw (← ap (λ (r : Row). r.0) same, eq_refl k) (ap some (sym (ap (λ (r : Row). r.1) same)))
table_lookup-mem k e ((j, d) ∷ rest) h (tail m) =
    ground
      (arith, eq_iff j k, has_key_of_mem k e rest m, table_lookup-mem k e rest (ground arith) m)

status_table-distinct : distinct_keys status_table ≡ true
unfolding distinct_keys has_key status_table
status_table-distinct = refl

status_to_event-standard :
    (status : String) (n : TikTokEventName)
    → status_to_event status ≡ some (named n)
    → (e : TikTokStandardEvent) × (n ≡ standard e)
unfolding status_to_event
status_to_event-standard status n h = elim (Option-cases (table_lookup status status_table)) [
  | inl missing ↦ absurd (ground arith)
  | inr (e, found) ↦ (e, ground arith)
]

-- An event whose payload holds the new Status.
abbrev pub with_status : SalesforceCdcEvent → String → SalesforceCdcEvent
with_status ev raw = record ev { fields = ("Status", text raw) ∷ ev.fields }

-- A change of the Status field, and not of IsConverted, of a Lead.
abbrev pub ChangesStatus : SalesforceCdcEvent → Type 0
ChangesStatus ev =
    (ev.header.entity_name ≡ "Lead")
    × (ev.header.change_type ≡ "UPDATE")
    × (member "IsConverted" (changed_fields_or_empty ev.header.changed_fields) ≡ false)
    × (member "Status" (changed_fields_or_empty ev.header.changed_fields) ≡ true)

module _ (lower : String → String) where
  evaluate-status :
      (ev : SalesforceCdcEvent) (raw : String) {e : EventValue}
      → ChangesStatus ev
      → status_to_event (trim (lower raw)) ≡ some e
      → Passes (evaluate lower (with_status ev raw)) e
  unfolding evaluate status_of field_of
  evaluate-status ev raw (lead, update, no_flag, status) mapped =
      rw (lead, update, no_flag, status, mapped) (refl, refl)

  -- Every row (k, e) of `STATUS_TO_EVENT` is in force: an update of the status of a Lead to a text
  -- that reads k in lower case, trimmed, passes the filter as e.
  pub evaluate-status_table :
      (ev : SalesforceCdcEvent) (raw : String) (e : TikTokStandardEvent)
      → ChangesStatus ev
      → Memᴰ (trim (lower raw), e) status_table
      → Passes (evaluate lower (with_status ev raw)) (named (standard e))
  unfolding status_to_event
  evaluate-status_table ev raw e changes row =
      evaluate-status ev raw changes
        (rw (table_lookup-mem (trim (lower raw)) e status_table status_table-distinct row) refl)

  -- A status that reads "constructor" or "__proto__" passes the filter, as a value that
  -- `STATUS_TO_EVENT` inherits and that is no TikTok event.
  pub evaluate-inherited :
      (ev : SalesforceCdcEvent) (raw : String)
      → ChangesStatus ev
      → (trim (lower raw) ≡ "constructor") ⊎ (trim (lower raw) ≡ "__proto__")
      → (shown : String) × Passes (evaluate lower (with_status ev raw)) (inherited shown)
  unfolding status_to_event
  evaluate-inherited ev raw changes (inl e) =
      ("function Object() { [native code] }", evaluate-status ev raw changes (rw e refl))
  evaluate-inherited ev raw changes (inr e) =
      ("[object Object]", evaluate-status ev raw changes (rw e refl))

  -- The case of a status and the white space around it do not matter: the result, its reason
  -- included, is that of the status in lower case and trimmed.
  pub evaluate-lower_trim :
      CaseLaws lower
      → (ev : SalesforceCdcEvent) (raw : String)
      → evaluate lower (with_status ev (trim (lower raw))) ≡ evaluate lower (with_status ev raw)
  unfolding evaluate status_of field_of
  evaluate-lower_trim laws ev raw = rw same refl
    where
      same : trim (lower (trim (lower raw))) ≡ trim (lower raw)
      same = rw (laws.lower-trim, laws.lower_idem, trim_idem) refl

  Triggers-standard :
      (ev : SalesforceCdcEvent) (n : TikTokEventName)
      → Triggers lower ev (named n)
      → (e : TikTokStandardEvent) × (n ≡ standard e)
  Triggers-standard ev n (created _ _ same) = (submit_form, cc)
  Triggers-standard ev n (converted _ _ _ same) = (purchase, cc)
  Triggers-standard ev n (status_changed _ _ _ _ mapped) =
      status_to_event-standard (status_of lower (field_of "Status" ev.fields)) n mapped

  -- A named event that passes the filter is a standard event, and has a funnel stage.
  pub evaluate-stage :
      (ev : SalesforceCdcEvent) (n : TikTokEventName)
      → Passes (evaluate lower ev) (named n)
      → (e : TikTokStandardEvent) × (n ≡ standard e)
        × (dfo_stage_of (named n) ≡ some (event_to_dfo_stage e))
  unfolding dfo_stage_of
  evaluate-stage ev n p =
      let (e, same) = Triggers-standard ev n ((evaluate_iff lower ev (named n)).0 p) in
      (e, same, rw same refl)
