-- ===== src/Text/Case.antt =====
-- `toLowerCase`, a parameter of the model, and what the program relies on. The lower case of the
-- ASCII letters meets it.
use Prim.Native.Char.{Char, char, code}
use mathlib.Core.Path.{ap₂}
use text.Mathlib.TextEquality.{Char-path}
use salesforce_tiktok_crm.Base.{
  ℕ, ◌+◌, ◌<◌, String, Bool, true, false, ◌≡◌, refl, ap, ◌∙◌, arith, leb, ◌&&◌, if◌then◌else◌,
  Bool-cases, inl, inr,
}
use salesforce_tiktok_crm.Text.Chars.{IsScalar_below}
use salesforce_tiktok_crm.Text.{is_space, trim_start, trim_end, trim, cons_trimmed}

-- Documented behaviour of `toLowerCase`: a second call changes nothing, and white space neither
-- comes nor goes.
pub record CaseLaws (lower : String → String) : Type 0 where
  pub lower_idem : (s : String) → lower (lower s) ≡ lower s
  pub lower-trim : (s : String) → lower (trim s) ≡ trim (lower s)

lower_code : ℕ → ℕ
lower_code n = if leb 65 n && leb n 90 then n + 32 else n

upper_below : (n : ℕ) → (leb 65 n && leb n 90) ≡ true → n + 32 < 55296
upper_below n h = ground arith

lower_letter : (c : Char) (b : Bool) → (leb 65 (code c) && leb (code c) 90) ≡ b → Char
lower_letter c true h = char (code c + 32) (IsScalar_below (code c + 32) (upper_below (code c) h))
lower_letter c false h = c

ascii_lower_char : Char → Char
ascii_lower_char c = lower_letter c (leb 65 (code c) && leb (code c) 90) refl

code-lower_letter :
    (c : Char) (b : Bool) (h : (leb 65 (code c) && leb (code c) 90) ≡ b)
    → code (lower_letter c b h) ≡ lower_code (code c)
unfolding lower_letter lower_code
code-lower_letter c true h = rw h refl
code-lower_letter c false h = rw h refl

code-ascii_lower_char : (c : Char) → code (ascii_lower_char c) ≡ lower_code (code c)
unfolding ascii_lower_char
code-ascii_lower_char c = code-lower_letter c (leb 65 (code c) && leb (code c) 90) refl

ascii_lower_char_idem : (c : Char) → ascii_lower_char (ascii_lower_char c) ≡ ascii_lower_char c
unfolding lower_code
ascii_lower_char_idem c =
    Char-path _ _
      (ground (arith, code-ascii_lower_char c, code-ascii_lower_char (ascii_lower_char c)))

space-ascii_lower_char : (c : Char) → is_space (ascii_lower_char c) ≡ is_space c
unfolding lower_code is_space
space-ascii_lower_char c = ground (arith, code-ascii_lower_char c)

unfoldable pub ascii_lower : String → String
unfolding ascii_lower_char lower_letter IsScalar_below upper_below
ascii_lower String.[] = String.[]
ascii_lower (String.◌∷◌ c s) = String.◌∷◌ (ascii_lower_char c) (ascii_lower s)

ascii_lower_runs : ascii_lower "Closed WON" ≡ "closed won"
unfolding ascii_lower
ascii_lower_runs = refl

ascii_lower_idem : (s : String) → ascii_lower (ascii_lower s) ≡ ascii_lower s
unfolding ascii_lower
ascii_lower_idem String.[] = refl
ascii_lower_idem (String.◌∷◌ c s) = ap₂ String.◌∷◌ (ascii_lower_char_idem c) (ascii_lower_idem s)

ascii_lower-trim_start : (s : String) → ascii_lower (trim_start s) ≡ trim_start (ascii_lower s)
unfolding ascii_lower trim_start
ascii_lower-trim_start String.[] = refl
ascii_lower-trim_start (String.◌∷◌ c s) = elim (Bool-cases (is_space c)) [
  | inl e ↦ rw (space-ascii_lower_char c, e) (ascii_lower-trim_start s)
  | inr e ↦ rw (space-ascii_lower_char c, e) refl
]

ascii_lower-cons_trimmed :
    (c : Char) (s : String)
    → ascii_lower (cons_trimmed c s) ≡ cons_trimmed (ascii_lower_char c) (ascii_lower s)
unfolding ascii_lower
ascii_lower-cons_trimmed c String.[] = elim (Bool-cases (is_space c)) [
  | inl e ↦ rw (space-ascii_lower_char c, e) refl
  | inr e ↦ rw (space-ascii_lower_char c, e) refl
]
ascii_lower-cons_trimmed c (String.◌∷◌ d s) = refl

ascii_lower-trim_end : (s : String) → ascii_lower (trim_end s) ≡ trim_end (ascii_lower s)
unfolding ascii_lower trim_end
ascii_lower-trim_end String.[] = refl
ascii_lower-trim_end (String.◌∷◌ c s) =
    ascii_lower-cons_trimmed c (trim_end s)
    ∙ ap (cons_trimmed (ascii_lower_char c)) (ascii_lower-trim_end s)

ascii_lower-trim : (s : String) → ascii_lower (trim s) ≡ trim (ascii_lower s)
unfolding trim
ascii_lower-trim s = ascii_lower-trim_end (trim_start s) ∙ ap trim_end (ascii_lower-trim_start s)

pub ascii_lower-CaseLaws : CaseLaws ascii_lower
ascii_lower-CaseLaws = record { lower_idem = ascii_lower_idem; lower-trim = ascii_lower-trim }
