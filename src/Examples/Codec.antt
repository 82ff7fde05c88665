-- ===== src/Examples/Codec.antt =====
-- A printer and a parser of active tokens that meet the laws.
use Prim.Native.Char.{Char, code}
use salesforce_tiktok_crm.Base.{
  ℕ, zero, suc, String, Bool, ◌≡◌, ◌≢◌, refl, ap, Option, none, some, nat_eq, if◌then◌else◌,
}
use salesforce_tiktok_crm.Types.Auth.{ActiveToken, iso_text, time_of}
use salesforce_tiktok_crm.Auth.TokenStore.{TokenCodec, CodecLaws}

-- a text before another: a mark before each character, and another mark at the end
abbrev print_text : String → String → String
print_text String.[] rest = String.◌∷◌ "-" rest
print_text (String.◌∷◌ c s) rest = String.◌∷◌ "+" (String.◌∷◌ c (print_text s rest))

abbrev consed : Char → Option (String × String) → Option (String × String)
consed c none = none
consed c (some (s, rest)) = some (String.◌∷◌ c s, rest)

abbrev marked : Char → Bool
marked c = nat_eq (code c) b'+'

abbrev parse_text : String → Option (String × String)
parse_text String.[] = none
parse_text (String.◌∷◌ m String.[]) = if marked m then none else some (String.[], String.[])
parse_text (String.◌∷◌ m (String.◌∷◌ c s)) =
    let rest = parse_text s in if marked m then consed c rest else some (String.[], String.◌∷◌ c s)

parse_text-print_text : (s rest : String) → parse_text (print_text s rest) ≡ some (s, rest)
parse_text-print_text String.[] String.[] = refl
parse_text-print_text String.[] (String.◌∷◌ c s) = refl
parse_text-print_text (String.◌∷◌ c s) rest = ap (consed c) (parse_text-print_text s rest)

-- a number in unary
abbrev print_number : ℕ → String
print_number zero = String.[]
print_number (suc n) = String.◌∷◌ "+" (print_number n)

abbrev parse_number : String → ℕ
parse_number String.[] = zero
parse_number (String.◌∷◌ c s) = suc (parse_number s)

parse_number-print_number : (n : ℕ) → parse_number (print_number n) ≡ n
parse_number-print_number zero = refl
parse_number-print_number (suc n) = ap suc (parse_number-print_number n)

abbrev finished : String → Option (String × String) → Option ActiveToken
finished access none = none
finished access (some (id, rest)) = some (record {
  access_token = access;
  advertiser_id = id;
  expires_at = iso_text (parse_number rest);
})

abbrev parse_rest : Option (String × String) → Option ActiveToken
parse_rest none = none
parse_rest (some (access, rest)) = finished access (parse_text rest)

abbrev pub codec : TokenCodec
codec = record {
  stringify = λ t.
      print_text t.access_token (print_text t.advertiser_id (print_number (time_of t.expires_at)));
  parse = λ s. parse_rest (parse_text s);
}

print_text-ne : (s rest : String) → print_text s rest ≢ ""
print_text-ne String.[] rest h = cc
print_text-ne (String.◌∷◌ c s) rest h = cc

pub codec-CodecLaws : CodecLaws codec
codec-CodecLaws = record {
  parse-stringify = λ t.
      rw
        (
          parse_text-print_text t.access_token
              (print_text t.advertiser_id (print_number (time_of t.expires_at))),
          parse_text-print_text t.advertiser_id (print_number (time_of t.expires_at)),
          parse_number-print_number (time_of t.expires_at),
        )
        refl;
  not_empty = λ t.
      print_text-ne t.access_token
        (print_text t.advertiser_id (print_number (time_of t.expires_at)));
}
