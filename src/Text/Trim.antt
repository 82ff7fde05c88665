-- ===== src/Text/Trim.antt =====
-- Laws of `trim` and `keep_digits`.
use Prim.Native.Char.{Char}
use salesforce_tiktok_crm.Base.{String, ◌≡◌, refl, false, Bool-cases, inl, inr}
use salesforce_tiktok_crm.Text.{
  is_space, trim_start, trim_end, trim, cons_trimmed, keep_digits, is_digit,
}

-- a text that does not begin with white space
abbrev StartsTight : String → Type 0
StartsTight String.[] = Unit
StartsTight (String.◌∷◌ c s) = is_space c ≡ false

trim_start-StartsTight : (s : String) → StartsTight (trim_start s)
unfolding trim_start
trim_start-StartsTight String.[] = tt
trim_start-StartsTight (String.◌∷◌ c s) = elim (Bool-cases (is_space c)) [
  | inl e ↦ rw e (trim_start-StartsTight s)
  | inr e ↦ rw e e
]

trim_start_of_tight : (s : String) → StartsTight s → trim_start s ≡ s
unfolding trim_start
trim_start_of_tight String.[] h = refl
trim_start_of_tight (String.◌∷◌ c s) h = rw h

cons_trimmed-tight :
    (c : Char) (s : String) → is_space c ≡ false → cons_trimmed c s ≡ String.◌∷◌ c s
cons_trimmed-tight c String.[] h = rw h
cons_trimmed-tight c (String.◌∷◌ d s) h = refl

trim_end-StartsTight : (s : String) → StartsTight s → StartsTight (trim_end s)
unfolding trim_end
trim_end-StartsTight String.[] h = tt
trim_end-StartsTight (String.◌∷◌ c s) h = rw (cons_trimmed-tight c (trim_end s) h) h

trim_end-cons_trimmed :
    (c : Char) (s : String) → trim_end s ≡ s → trim_end (cons_trimmed c s) ≡ cons_trimmed c s
unfolding trim_end
trim_end-cons_trimmed c String.[] h = elim (Bool-cases (is_space c)) [
  | inl e ↦ rw e refl
  | inr e ↦ rw (e, e) refl
]
trim_end-cons_trimmed c (String.◌∷◌ d s) h = rw h refl

trim_end_idem : (s : String) → trim_end (trim_end s) ≡ trim_end s
unfolding trim_end
trim_end_idem String.[] = refl
trim_end_idem (String.◌∷◌ c s) = trim_end-cons_trimmed c (trim_end s) (trim_end_idem s)

-- Trimming a second time changes nothing.
pub trim_idem : (s : String) → trim (trim s) ≡ trim s
unfolding trim
trim_idem s =
    rw
      (trim_start_of_tight (trim_end (trim_start s))
        (trim_end-StartsTight (trim_start s) (trim_start-StartsTight s)))
      (trim_end_idem (trim_start s))

-- Keeping the digits of a text of digits changes nothing.
pub keep_digits_idem : (s : String) → keep_digits (keep_digits s) ≡ keep_digits s
unfolding keep_digits
keep_digits_idem String.[] = refl
keep_digits_idem (String.◌∷◌ c s) = elim (Bool-cases (is_digit c)) [
  | inl e ↦ rw (e, e, keep_digits_idem s) refl
  | inr e ↦ rw e (keep_digits_idem s)
]
