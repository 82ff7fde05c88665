-- ===== src/Filter/Triggers.antt =====
-- The filter against a relation: which events it lets through, and as what.
use mathlib.Core.Bool.{false≢true}
use mathlib.Core.List.{Mem, mem-cons, not-mem-nil}
use mathlib.Core.Logic.Or
use salesforce_tiktok_crm.Base.{
  String, Bool, true, false, ◌||◌, ◌≡◌, refl, sym, ap, ◌∙◌, ◌↔◌, some, List, [], ◌∷◌, ◌==◌, eq_iff,
  eq_refl, arith, Bool-cases, inl, inr,
}
use salesforce_tiktok_crm.Types.{
  SalesforceCdcEvent, EventValue, named, standard, submit_form, purchase, FilterResult,
}
use salesforce_tiktok_crm.Filter.{member, field_of, changed_fields_or_empty, status_of, evaluate}
use salesforce_tiktok_crm.Filter.Table.{status_to_event}

or_true : (b : Bool) → (b || true) ≡ true
or_true true = refl
or_true false = refl

member_complete : (x : String) (xs : List String) → Mem x xs → member x xs ≡ true
unfolding member
member_complete x [] m = absurd (not-mem-nil m)
member_complete x (y ∷ ys) m =
    Or.elim (hlevel) (mem-cons.0 m) (λ e. rw (e, eq_refl y) refl)
      (λ r. rw (member_complete x ys r) (or_true _))

member_sound : (x : String) (xs : List String) → member x xs ≡ true → Mem x xs
unfolding member
member_sound x [] h = cc
member_sound x (y ∷ ys) h = elim (Bool-cases (x == y)) [
  | inl e ↦ mem-cons.1 (Or.inl ((eq_iff x y).0 e))
  | inr e ↦ mem-cons.1 (Or.inr (member_sound x ys (ground arith)))
]

-- `includes` decides membership.
pub member_iff : (x : String) (xs : List String) → (member x xs ≡ true) ↔ Mem x xs
member_iff x xs = (member_sound x xs, member_complete x xs)

-- What a result lets through, as `e`.
abbrev pub Passes : FilterResult → EventValue → Type 0
Passes r e = (r.should_process ≡ true) × (r.event_type ≡ some e)

module _ (lower : String → String) (ev : SalesforceCdcEvent) where
  abbrev changed : List String
  changed = changed_fields_or_empty ev.header.changed_fields

  -- The three ways in which a change of a Lead becomes an event.
  pub data Triggers (e : EventValue) : Type 0 where
    created :
        ev.header.entity_name ≡ "Lead"
        → ev.header.change_type ≡ "CREATE"
        → e ≡ named (standard submit_form)
        → Triggers e
    converted :
        ev.header.entity_name ≡ "Lead"
        → ev.header.change_type ≡ "UPDATE"
        → Mem "IsConverted" changed
        → e ≡ named (standard purchase)
        → Triggers e
    status_changed :
        ev.header.entity_name ≡ "Lead"
        → ev.header.change_type ≡ "UPDATE"
        → ¬ Mem "IsConverted" changed
        → Mem "Status" changed
        → status_to_event (status_of lower (field_of "Status" ev.fields)) ≡ some e
        → Triggers e

  Passes-Triggers : (e : EventValue) → Passes (evaluate lower ev) e → Triggers e
  unfolding evaluate
  Passes-Triggers e p = elim (Bool-cases (ev.header.entity_name == "Lead")) [
    | inr no_lead ↦ absurd (ground arith)
    | inl lead ↦ elim (Bool-cases (ev.header.change_type == "CREATE")) [
      | inl create ↦ created ((eq_iff _ _).0 lead) ((eq_iff _ _).0 create) (ground arith)
      | inr no_create ↦ elim (Bool-cases (ev.header.change_type == "UPDATE")) [
        | inr no_update ↦ absurd (ground arith)
        | inl update ↦ elim (Bool-cases (member "IsConverted" changed)) [
          | inl flag ↦
              converted ((eq_iff _ _).0 lead) ((eq_iff _ _).0 update) (member_sound _ _ flag)
                (ground arith)
          | inr no_flag ↦ elim (Bool-cases (member "Status" changed)) [
            | inl status ↦
                status_changed ((eq_iff _ _).0 lead) ((eq_iff _ _).0 update)
                  (λ m. false≢true (sym no_flag ∙ member_complete _ _ m)) (member_sound _ _ status)
                  (ground arith)
            | inr no_status ↦ absurd (ground arith)
          ]
        ]
      ]
    ]
  ]

  no_member : (x : String) (xs : List String) → ¬ Mem x xs → member x xs ≡ false
  no_member x xs h = elim (Bool-cases (member x xs)) [
    | inl e ↦ absurd (h (member_sound x xs e))
    | inr e ↦ e
  ]

  no_create : ev.header.change_type ≡ "UPDATE" → (ev.header.change_type == "CREATE") ≡ false
  no_create update = rw update refl

  Triggers-Passes : (e : EventValue) → Triggers e → Passes (evaluate lower ev) e
  unfolding evaluate
  Triggers-Passes e (created lead create same) =
      rw ((eq_iff _ _).1 lead, (eq_iff _ _).1 create) (refl, ap some (sym same))
  Triggers-Passes e (converted lead update m same) =
      rw ((eq_iff _ _).1 lead, no_create update, (eq_iff _ _).1 update, member_complete _ _ m)
        (refl, ap some (sym same))
  Triggers-Passes e (status_changed lead update no_flag m mapped) =
      rw
        (
          (eq_iff _ _).1 lead,
          no_create update,
          (eq_iff _ _).1 update,
          no_member _ _ no_flag,
          member_complete _ _ m,
          mapped,
        )
        (refl, refl)

  -- An event passes as `e` exactly when it is the creation of a Lead (then `e` is SubmitForm), an
  -- update of a Lead that sets IsConverted (Purchase), or one that changes Status and not
  -- IsConverted, to a status that `STATUS_TO_EVENT` gives `e` for.
  pub evaluate_iff : (e : EventValue) → Passes (evaluate lower ev) e ↔ Triggers e
  evaluate_iff e = (Passes-Triggers e, Triggers-Passes e)
