-- ===== src/Normalization/Phone.antt =====
-- Phone numbers.
use Prim.Native.Char.{code}
use Prim.Native.String
use text.Mathlib.TextLemmas.{cons-append, nil-append}
use salesforce_tiktok_crm.Base.{
  ◌≤◌, ◌<◌, ◌↔◌, String, true, ◌≡◌, refl, ap, sym, ◌∙◌, Option, none, some, arith, Bool-cases,
  Option-cases, inl, inr, nat_eq,
}
use salesforce_tiktok_crm.Text.{keep_digits, size, is_digit}
use salesforce_tiktok_crm.Normalization.{phone, e164, plus}

-- Only digits.
abbrev pub AllDigits : String → Type 0
AllDigits String.[] = Unit
AllDigits (String.◌∷◌ c s) = (is_digit c ≡ true) × AllDigits s

-- A plus sign and at least eleven digits, and nothing else. (E.164 has fifteen digits at most, and a
-- country code that does not begin with 0; the code tests neither.)
pub data IsInternational (t : String) : Type 0 where
  number :
      (digits : String) → t ≡ plus digits → AllDigits digits → 11 ≤ size digits → IsInternational t

keep_digits-AllDigits : (s : String) → AllDigits (keep_digits s)
unfolding keep_digits
keep_digits-AllDigits String.[] = tt
keep_digits-AllDigits (String.◌∷◌ c s) = elim (Bool-cases (is_digit c)) [
  | inl e ↦ rw e (e, keep_digits-AllDigits s)
  | inr e ↦ rw e (keep_digits-AllDigits s)
]

keep_digits_of_AllDigits : (s : String) → AllDigits s → keep_digits s ≡ s
unfolding keep_digits
keep_digits_of_AllDigits String.[] h = refl
keep_digits_of_AllDigits (String.◌∷◌ c s) (d, h) = rw (d, keep_digits_of_AllDigits s h) refl

one_more : (s : String) → String.◌++◌ "1" s ≡ String.◌∷◌ "1" s
one_more s = cons-append "1" "" s ∙ ap (String.◌∷◌ "1") (nil-append s)

e164-IsInternational :
    (digits : String) (t : String) → AllDigits digits → e164 "1" digits ≡ some t → IsInternational t
unfolding e164
e164-IsInternational digits t all h = elim (Bool-cases (nat_eq (size digits) 10)) [
  | inl ten ↦
      number (String.◌∷◌ "1" digits) (ground (arith, one_more digits)) (refl, all) (ground arith)
  | inr other ↦ number digits (ground arith) all (ground arith)
]

phone_of_IsInternational : (t : String) → IsInternational t → phone (some t) "1" ≡ some t
unfolding phone e164 keep_digits
phone_of_IsInternational t (number digits same all long) =
    rw (same, keep_digits_of_AllDigits digits all) (ground arith)

e164-none : (digits : String) → (e164 "1" digits ≡ none) ↔ (size digits < 10)
unfolding e164
e164-none digits = ground arith

phone-e164 :
    (s country_code : String) → phone (some s) country_code ≡ e164 country_code (keep_digits s)
unfolding phone e164 keep_digits
phone-e164 String.[] code = refl
phone-e164 (String.◌∷◌ c s) code = refl

-- With the default country code a phone number that is kept is a plus sign, at least eleven digits
-- and nothing else, and a second pass keeps it.
pub phone-IsInternational :
    (raw : Option String) (t : String)
    → phone raw "1" ≡ some t
    → IsInternational t × (phone (some t) "1" ≡ some t)
unfolding phone
phone-IsInternational none t h = cc
phone-IsInternational (some s) t h =
    let number_t : IsInternational t =
      e164-IsInternational (keep_digits s) t (keep_digits-AllDigits s)
        (sym (phone-e164 s "1") ∙ h) in
    (number_t, phone_of_IsInternational t number_t)

-- With the default country code a phone number is dropped exactly if it has fewer than ten digits,
-- and two spellings with the same digits give the same result.
pub phone-digits :
    (s s' : String)
    → keep_digits s' ≡ keep_digits s
    → ((phone (some s) "1" ≡ none) ↔ (size (keep_digits s) < 10))
      × (phone (some s') "1" ≡ phone (some s) "1")
phone-digits s s' same = (
  rw (phone-e164 s "1") (e164-none (keep_digits s)),
  phone-e164 s' "1" ∙ ap (e164 "1") same ∙ sym (phone-e164 s "1"),
)

-- With the default country code a second pass changes nothing.
pub phone_idem : (raw : Option String) → phone (phone raw "1") "1" ≡ phone raw "1"
phone_idem raw = elim (Option-cases (phone raw "1")) [
  | inl e ↦ rw e (unfold phone in refl)
  | inr (t, e) ↦ rw e (phone-IsInternational raw t e).1
]
