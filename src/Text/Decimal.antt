-- ===== src/Text/Decimal.antt =====
-- `${n}` for a natural number, and its inverse. One round of the loop prints one digit, so `suc n`
-- rounds are enough.
use Prim.Native.Char.{Char, char, code}
use mathlib.Core.Bool.{false≢true}
use salesforce_tiktok_crm.Base.{
  ℕ, zero, suc, ◌+◌, ◌-◌, ◌*◌, ◌/◌, ◌%◌, ◌<◌, String, false, ◌≡◌, refl, sym, ◌∙◌, ap, ◌≢◌, arith,
  ltb, nat_eq, if◌then◌else◌, Bool-cases, inl, inr,
}
use salesforce_tiktok_crm.Text.Chars.{IsScalar_below}
use salesforce_tiktok_crm.Text.{includes}

digit_below : (d : ℕ) → d % 10 + 48 < 55296
digit_below d = omega arith

digit : ℕ → Char
digit d = char (d % 10 + 48) (IsScalar_below (d % 10 + 48) (digit_below d))

show_from : ℕ → ℕ → String → String
show_from zero n rest = rest
show_from (suc rounds) n rest =
    let longer = show_from rounds (n / 10) (String.◌∷◌ (digit n) rest) in
    if ltb n 10 then String.◌∷◌ (digit n) rest else longer

unfoldable pub show : ℕ → String
unfolding show_from digit IsScalar_below digit_below
show n = show_from (suc n) n ""

show_runs : show 1736899200 ≡ "1736899200"
unfolding show
show_runs = refl

value_from : ℕ → String → ℕ
value_from n String.[] = n
value_from n (String.◌∷◌ c s) = value_from (n * 10 + (code c - 48)) s

value_digit : (d n : ℕ) → n * 10 + (code (digit d) - 48) ≡ n * 10 + d % 10
unfolding digit
value_digit d n = omega arith

value-show_from :
    (rounds n : ℕ) (rest : String)
    → n < rounds
    → value_from 0 (show_from rounds n rest) ≡ value_from n rest
unfolding show_from value_from
value-show_from zero n rest h = absurd (omega arith)
value-show_from (suc rounds) n rest h = elim (Bool-cases (ltb n 10)) [
  | inl small ↦
      let e : 0 * 10 + (code (digit n) - 48) ≡ n = ground (arith, value_digit n 0) in
      rw small (ap (λ k. value_from k rest) e)
  | inr large ↦
      let e : n / 10 * 10 + (code (digit n) - 48) ≡ n = omega (arith, value_digit n (n / 10)) in
      rw large (value-show_from rounds (n / 10) _ (ground arith) ∙ ap (λ k. value_from k rest) e)
]

-- Two numbers that print alike are equal.
pub show-injective : (m n : ℕ) → show m ≡ show n → m ≡ n
unfolding show value_from
show-injective m n h =
    sym (value-show_from (suc m) m "" (omega arith))
    ∙ ap (value_from 0) h
    ∙ value-show_from (suc n) n "" (omega arith)

-- a character that is no digit stands in no printed number
module _ (x : Char) (no_digit : (d : ℕ) → nat_eq (code x) (code (digit d)) ≡ false) where
  show_from_lacks :
      (rounds n : ℕ) (rest : String)
      → includes x rest ≡ false
      → includes x (show_from rounds n rest) ≡ false
  unfolding show_from includes
  show_from_lacks zero n rest h = h
  show_from_lacks (suc rounds) n rest h = elim (Bool-cases (ltb n 10)) [
    | inl small ↦ rw (small, no_digit n) h
    | inr large ↦ rw large (show_from_lacks rounds (n / 10) _ (rw (no_digit n) h))
  ]

colon_no_digit : (d : ℕ) → nat_eq 58 (code (digit d)) ≡ false
unfolding digit
colon_no_digit d = ground arith

letter_no_digit : (d : ℕ) → nat_eq 78 (code (digit d)) ≡ false
unfolding digit
letter_no_digit d = ground arith

pub show_no_colon : (n : ℕ) → includes ":" (show n) ≡ false
unfolding show includes
show_no_colon n = show_from_lacks ":" colon_no_digit (suc n) n "" refl

-- No number prints as "NaN".
pub show-ne-nan : (n : ℕ) → show n ≢ "NaN"
unfolding show includes
show-ne-nan n e =
    false≢true (sym (show_from_lacks "N" letter_no_digit (suc n) n "" refl) ∙ ap (includes "N") e)
