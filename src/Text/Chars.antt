-- ===== src/Text/Chars.antt =====
-- Characters by their numbers.
use Prim.Native.Char.{IsScalar}
use Prim.Native.Nat.{compare, Ordering}
use salesforce_tiktok_crm.Base.{ℕ, ◌<◌, ◌≡◌, arith}

compare_below : (n : ℕ) → n < 55296 → compare n 55296 ≡ Ordering.lt
compare_below n h = ground arith

unfoldable pub IsScalar_below : (n : ℕ) → n < 55296 → IsScalar n
unfolding compare_below
IsScalar_below n h = rw (compare_below n h) tt
