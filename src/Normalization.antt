-- ===== src/Normalization.antt =====
-- normalization/normalizer.ts. `toLowerCase` is the parameter `lower`.
pub mod Laws
pub mod Phone
pub mod Hasher
use Prim.Native.Char
use Prim.Native.String
use salesforce_tiktok_crm.Base.{
  ℕ, String, Bool, true, false, ◌&&◌, Option, none, some, ltb, nat_eq, if◌then◌else◌,
}
use salesforce_tiktok_crm.Text.{trim, keep_digits, size, includes, non_empty}

infixl 5 ◌>>=◌
abbrev ◌>>=◌ : Option String → (String → Option String) → Option String
none >>= k = none
some a >>= k = k a

-- `if (!raw) return undefined`
abbrev given : Option String → Option String
given none = none
given (some s) = non_empty s

-- `digits.startsWith('1')`
unfoldable pub starts_with_one : String → Bool
starts_with_one String.[] = false
starts_with_one (String.◌∷◌ c s) = nat_eq (Char.code c) b'1'

abbrev plus : String → String
plus s = String.◌∷◌ "+" s

-- what `phone` returns for the digits that it kept
unfoldable pub e164 : String → String → Option String
unfolding starts_with_one
e164 country_code digits =
    if nat_eq (size digits) 0
    then none
    else if nat_eq (size digits) 11 && starts_with_one digits
    then some (plus digits)
    else if nat_eq (size digits) 10
    then some (plus (String.◌++◌ country_code digits))
    else if ltb 10 (size digits)
    then some (plus digits)
    else none

unfoldable pub phone : Option String → String → Option String
phone raw country_code = do s ← given raw; e164 country_code (keep_digits s)

unfoldable pub zip : Option String → Option String
zip raw = do s ← given raw; non_empty (keep_digits s)

unfoldable pub external_id : Option String → Option String
external_id raw = do s ← given raw; non_empty (trim s)

module _ (lower : String → String) where
  unfoldable pub email : Option String → Option String
  email raw = do
    s ← given raw
    let normalized = lower (trim s)
    if includes "@" normalized then some normalized else none

  unfoldable pub name_field : Option String → Option String
  name_field raw = do s ← given raw; non_empty (lower (trim s))

  unfoldable pub geo : Option String → Option String
  geo raw = do s ← given raw; non_empty (lower (trim s))
