-- ===== src/Http.antt =====
-- What the Express handlers answer: a status with a JSON body, or a redirect.
use salesforce_tiktok_crm.Base.{ℕ, String, List}
use salesforce_tiktok_crm.Types.EventSets.{CrmEventSet}

pub data Json : Type 0 where
  null : Json
  string : String → Json
  number : ℕ → Json
  strings : List String → Json
  event_set : CrmEventSet → Json
  event_sets : List CrmEventSet → Json

pub data HttpResponse : Type 0 where
  json : ℕ → List (String × Json) → HttpResponse
  redirect : String → HttpResponse

-- the status that the client sees
abbrev pub status_code : HttpResponse → ℕ
status_code (json status body) = status
status_code (redirect url) = 302
