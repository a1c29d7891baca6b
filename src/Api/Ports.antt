-- ===== src/Api/Ports.antt =====
-- `PortOrPortRange.ToRange` of api/v1beta1/scalewaycluster_types.go, with the parts of Go's strings
-- and strconv packages that it calls. `int` has 64 bits.
pub mod Laws
pub mod Safe
pub mod Print
use cluster_api_provider_sca.Prelude.{
  ℕ, ◌+◌, ◌-◌, ◌*◌, ◌^◌, String, Bool, true, false, ◌&&◌, Option, none, some, List, [], ◌∷◌, ltb,
  leb, nat_eq, if◌then◌else◌, ℤ, pos, negsuc, ltb_ℤ, to_word,
}
use cluster_api_provider_sca.Prelude.Text.{codes}
use cluster_api_provider_sca.Result.{Result, ok, err, other, ◌>>=◌, wrapped}

abbrev push : ℕ → List (List ℕ) → List (List ℕ)
push c [] = (c ∷ []) ∷ []
push c (part ∷ parts) = (c ∷ part) ∷ parts

-- `strings.Split` with a separator of one byte
split : List ℕ → ℕ → List (List ℕ)
split [] sep = [] ∷ []
split (c ∷ s) sep = let rest = split s sep in if nat_eq c sep then [] ∷ rest else push c rest

abbrev is_digit : ℕ → Bool
is_digit c = leb b'0' c && leb c b'9'

digits : List ℕ → ℕ → Option ℕ
digits [] n = some n
digits (c ∷ s) n = let rest = digits s (n * 10 + (c - b'0')) in if is_digit c then rest else none

-- The digits of a number after its sign: at least one.
unsigned : List ℕ → Option ℕ
unfolding digits
unsigned [] = none
unsigned (c ∷ s) = digits (c ∷ s) 0

abbrev positive : Option ℕ → Result ℤ
positive none = err (other "invalid syntax")
positive (some n) = if ltb n (2 ^ 63) then ok (pos n) else err (other "value out of range")

abbrev negated : ℕ → ℤ
negated n = if nat_eq n 0 then pos 0 else negsuc (n - 1)

abbrev negative : Option ℕ → Result ℤ
negative none = err (other "invalid syntax")
negative (some n) = if leb n (2 ^ 63) then ok (negated n) else err (other "value out of range")

-- `strconv.Atoi`
atoi : List ℕ → Result ℤ
unfolding unsigned
atoi [] = err (other "invalid syntax")
atoi (c ∷ s) =
    if nat_eq c b'-'
    then negative (unsigned s)
    else if nat_eq c b'+'
    then positive (unsigned s)
    else positive (unsigned (c ∷ s))

-- The switch on the number of parts.
range_of_parts : List (List ℕ) → Result (Option ℕ × Option ℕ)
unfolding atoi
range_of_parts (part ∷ []) = do
  n ← wrapped "port is not a valid number" (atoi part)
  ok (some (to_word 32 n), none)
range_of_parts (low ∷ high ∷ []) = do
  from ← wrapped "'from' port is not a valid number" (atoi low)
  to ← wrapped "'to' port is not a valid number" (atoi high)
  if ltb_ℤ to from
      then err (other "invalid port range: 'from' is higher than 'to'")
      else ok (some (to_word 32 from), some (to_word 32 to))
range_of_parts _ = err (other "port or port range is not correctly formatted")

range_of_codes : List ℕ → Result (Option ℕ × Option ℕ)
unfolding range_of_parts split
range_of_codes s = range_of_parts (split s b'-')

-- `ToRange`
unfoldable pub to_range : Option String → Result (Option ℕ × Option ℕ)
unfolding range_of_codes
to_range none = ok (none, none)
to_range (some p) = range_of_codes (codes p)
