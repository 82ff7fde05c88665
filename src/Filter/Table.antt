-- ===== src/Filter/Table.antt =====
-- filters/event-filter.ts: `STATUS_TO_EVENT`, in the order of the source.
use salesforce_tiktok_crm.Base.{String, Option, none, some, List, [], ◌∷◌, ◌==◌, if◌then◌else◌}
use salesforce_tiktok_crm.Types.{
  TikTokStandardEvent, submit_form, contact, schedule, complete_registration, submit_application,
  purchase, application_approval, subscribe, start_trial, EventValue, named, inherited, standard,
}

unfoldable pub status_table : List (String × TikTokStandardEvent)
status_table =
    ("new", submit_form)
    ∷ ("open", submit_form)
    ∷ ("open - not contacted", submit_form)
    ∷ ("not contacted", submit_form)
    ∷ ("pending", submit_form)
    ∷ ("uncontacted", submit_form)
    ∷ ("fresh", submit_form)
    ∷ ("contacted", contact)
    ∷ ("attempted to contact", contact)
    ∷ ("working - contacted", contact)
    ∷ ("working", contact)
    ∷ ("in progress", contact)
    ∷ ("follow up", contact)
    ∷ ("follow-up", contact)
    ∷ ("nurturing", contact)
    ∷ ("reconnect", contact)
    ∷ ("re-engaged", contact)
    ∷ ("demo scheduled", schedule)
    ∷ ("meeting scheduled", schedule)
    ∷ ("appointment scheduled", schedule)
    ∷ ("appointment booked", schedule)
    ∷ ("call scheduled", schedule)
    ∷ ("demo booked", schedule)
    ∷ ("intro call scheduled", schedule)
    ∷ ("discovery call scheduled", schedule)
    ∷ ("qualified", complete_registration)
    ∷ ("marketing qualified", complete_registration)
    ∷ ("mql", complete_registration)
    ∷ ("interested", complete_registration)
    ∷ ("review", complete_registration)
    ∷ ("under review", complete_registration)
    ∷ ("sales qualified", submit_application)
    ∷ ("sql", submit_application)
    ∷ ("opportunity", submit_application)
    ∷ ("proposal sent", submit_application)
    ∷ ("proposal", submit_application)
    ∷ ("negotiation", submit_application)
    ∷ ("application submitted", submit_application)
    ∷ ("applied", submit_application)
    ∷ ("converted", purchase)
    ∷ ("closed - converted", purchase)
    ∷ ("closed", purchase)
    ∷ ("closed won", purchase)
    ∷ ("closed - won", purchase)
    ∷ ("won", purchase)
    ∷ ("sale", purchase)
    ∷ ("customer", purchase)
    ∷ ("unqualified", purchase)
    ∷ ("closed - not converted", purchase)
    ∷ ("closed - not interested", purchase)
    ∷ ("junk lead", purchase)
    ∷ ("junk", purchase)
    ∷ ("lost", purchase)
    ∷ ("disqualified", purchase)
    ∷ ("inactive", purchase)
    ∷ ("recycled", purchase)
    ∷ ("do not contact", purchase)
    ∷ ("approved", application_approval)
    ∷ ("application approved", application_approval)
    ∷ ("credit approved", application_approval)
    ∷ ("accepted", application_approval)
    ∷ ("subscribed", subscribe)
    ∷ ("subscription started", subscribe)
    ∷ ("trial", start_trial)
    ∷ ("trial started", start_trial)
    ∷ ("free trial", start_trial)
    ∷ []

unfoldable pub table_lookup :
    String → List (String × TikTokStandardEvent) → Option TikTokStandardEvent
table_lookup status [] = none
table_lookup status ((k, e) ∷ rest) = if k == status then some e else table_lookup status rest

-- Names that are all lower case and that every object inherits: reading one gives a value.
unfoldable pub inherited_value : String → Option EventValue
inherited_value status =
    if status == "constructor"
    then some (inherited "function Object() { [native code] }")
    else if status == "__proto__"
    then some (inherited "[object Object]")
    else none

abbrev pub own_or_inherited : Option TikTokStandardEvent → Option EventValue → Option EventValue
own_or_inherited none other = other
own_or_inherited (some e) other = some (named (standard e))

-- `STATUS_TO_EVENT[status]`
unfoldable pub status_to_event : String → Option EventValue
unfolding table_lookup status_table inherited_value
status_to_event status =
    own_or_inherited (table_lookup status status_table) (inherited_value status)
