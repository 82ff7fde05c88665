-- ===== src/Normalization/Laws.antt =====
-- Normalising twice is normalising once.
use salesforce_tiktok_crm.Base.{
  String, ◌≡◌, refl, ap, Option, none, some, Bool-cases, inl, inr, if◌then◌else◌,
}
use salesforce_tiktok_crm.Text.{trim, keep_digits, includes, non_empty}
use salesforce_tiktok_crm.Text.Case.{CaseLaws}
use salesforce_tiktok_crm.Text.Trim.{trim_idem, keep_digits_idem}
use salesforce_tiktok_crm.Normalization.{◌>>=◌, given, email, name_field, geo, zip, external_id}

-- The shape of four normalisers: a change of the text, dropped where it leaves nothing.
module _ (f : String → String) where
  abbrev kept : Option String → Option String
  kept raw = do s ← given raw; non_empty (f s)

  kept-non_empty : (u : String) → non_empty (f u) ≡ non_empty u → kept (non_empty u) ≡ non_empty u
  kept-non_empty String.[] h = refl
  kept-non_empty (String.◌∷◌ c u) h = h

  kept_idem : ((s : String) → f (f s) ≡ f s) → (raw : Option String) → kept (kept raw) ≡ kept raw
  kept_idem idem none = refl
  kept_idem idem (some String.[]) = refl
  kept_idem idem (some (String.◌∷◌ c s)) =
      kept-non_empty (f (String.◌∷◌ c s)) (ap non_empty (idem (String.◌∷◌ c s)))

module _ (lower : String → String) (laws : CaseLaws lower) where
  abbrev folded : String → String
  folded s = lower (trim s)

  folded_idem : (s : String) → folded (folded s) ≡ folded s
  folded_idem s = simp (laws.lower-trim, laws.lower_idem, trim_idem)

  abbrev with_at : String → Option String
  with_at u = if includes "@" u then some u else none

  email-with_at : (u : String) → folded u ≡ u → email lower (with_at u) ≡ with_at u
  unfolding email
  email-with_at String.[] h = unfold includes in refl
  email-with_at (String.◌∷◌ c u) h = elim (Bool-cases (includes "@" (String.◌∷◌ c u))) [
    | inl e ↦ rw (e, h, e) refl
    | inr e ↦ rw e refl
  ]

  email_idem : (raw : Option String) → email lower (email lower raw) ≡ email lower raw
  unfolding email
  email_idem none = refl
  email_idem (some String.[]) = refl
  email_idem (some (String.◌∷◌ c s)) =
      email-with_at (folded (String.◌∷◌ c s)) (folded_idem (String.◌∷◌ c s))

  -- Every normaliser but `phone` is idempotent: a second pass over its result changes nothing.
  pub normalizers_idem :
      (raw : Option String)
      → (email lower (email lower raw) ≡ email lower raw)
        × (name_field lower (name_field lower raw) ≡ name_field lower raw)
        × (geo lower (geo lower raw) ≡ geo lower raw)
        × (zip (zip raw) ≡ zip raw)
        × (external_id (external_id raw) ≡ external_id raw)
  unfolding name_field geo zip external_id
  normalizers_idem raw = (
    email_idem raw,
    kept_idem folded folded_idem raw,
    kept_idem folded folded_idem raw,
    kept_idem keep_digits keep_digits_idem raw,
    kept_idem trim trim_idem raw,
  )
