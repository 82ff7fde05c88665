-- ===== src/Text.antt =====
-- JavaScript strings as the program uses them: `trim`, `includes`, `replace(/\D/g, '')`, `length`,
-- `slice(0, 1)` and the tests for a missing or an empty string. A text is a sequence of Unicode
-- characters; lone surrogates, which a JavaScript string can hold, are left out.
pub mod Trim
mod Chars
pub mod Case
pub mod Decimal
use Prim.Native.Char.{Char, code}
use Prim.Native.String
use salesforce_tiktok_crm.Base.{
  ℕ, zero, suc, String, Bool, true, false, ◌&&◌, ◌||◌, Option, none, some, nat_eq, leb, ◌==◌,
  if◌then◌else◌,
}

-- The white space and line terminators that `trim` removes.
unfoldable pub is_space : Char → Bool
is_space c =
    let n = code c in
    leb 9 n && leb n 13
    || nat_eq n 32
    || nat_eq n 0xa0
    || nat_eq n 0x1680
    || leb 0x2000 n && leb n 0x200a
    || nat_eq n 0x2028
    || nat_eq n 0x2029
    || nat_eq n 0x202f
    || nat_eq n 0x205f
    || nat_eq n 0x3000
    || nat_eq n 0xfeff

unfoldable pub trim_start : String → String
trim_start String.[] = String.[]
trim_start (String.◌∷◌ c s) = if is_space c then trim_start s else String.◌∷◌ c s

-- `c` before a text whose end is already trimmed
abbrev pub cons_trimmed : Char → String → String
cons_trimmed c String.[] = if is_space c then String.[] else String.◌∷◌ c String.[]
cons_trimmed c (String.◌∷◌ d s) = String.◌∷◌ c (String.◌∷◌ d s)

unfoldable pub trim_end : String → String
trim_end String.[] = String.[]
trim_end (String.◌∷◌ c s) = cons_trimmed c (trim_end s)

unfoldable pub trim : String → String
unfolding trim_start trim_end is_space
trim s = trim_end (trim_start s)

abbrev pub is_digit : Char → Bool
is_digit c = leb b'0' (code c) && leb (code c) b'9'

-- `raw.replace(/\D/g, '')`
unfoldable pub keep_digits : String → String
keep_digits String.[] = String.[]
keep_digits (String.◌∷◌ c s) =
    let rest = keep_digits s in if is_digit c then String.◌∷◌ c rest else rest

-- `length` of a text of digits, where characters and UTF-16 units agree
abbrev pub size : String → ℕ
size String.[] = 0
size (String.◌∷◌ c s) = suc (size s)

-- `s.includes(c)` for one character
unfoldable pub includes : Char → String → Bool
includes d String.[] = false
includes d (String.◌∷◌ c s) = nat_eq (code d) (code c) || includes d s

abbrev pub is_empty : String → Bool
is_empty String.[] = true
is_empty (String.◌∷◌ c s) = false

-- `undefined` and `''` are both falsy
abbrev pub truthy : Option String → Bool
truthy none = false
truthy (some String.[]) = false
truthy (some (String.◌∷◌ c s)) = true

-- The text unless it is empty.
abbrev pub non_empty : String → Option String
non_empty String.[] = none
non_empty (String.◌∷◌ c s) = some (String.◌∷◌ c s)

-- What a test for truth lets through of a text that may be missing.
abbrev pub truthy_text : Option String → Option String
truthy_text none = none
truthy_text (some s) = non_empty s

unfoldable pub starts_with : String → String → Bool
starts_with String.[] s = true
starts_with (String.◌∷◌ c p) String.[] = false
starts_with (String.◌∷◌ c p) (String.◌∷◌ d s) = nat_eq (code c) (code d) && starts_with p s

-- `s.includes(p)`
unfoldable pub contains : String → String → Bool
unfolding starts_with
contains p String.[] = starts_with p String.[]
contains p (String.◌∷◌ c s) = starts_with p (String.◌∷◌ c s) || contains p s
