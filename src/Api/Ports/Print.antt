-- ===== src/Api/Ports/Print.antt =====
-- Decimal ports, as `ToRange` of api/v1beta1/scalewaycluster_types.go reads them.
use cluster_api_provider_sca.Prelude.{
  ℕ, zero, suc, ◌+◌, ◌-◌, ◌*◌, ◌/◌, ◌%◌, ◌^◌, ◌≤◌, ◌<◌, ◌≡◌, refl, ap, ◌∙◌, subst, String, Option,
  some, none, List, [], ◌∷◌, ◌++◌, arith, All, Bool-cases, inl, inr, ltb, if◌then◌else◌,
}
use cluster_api_provider_sca.Prelude.Text.{codes}
use cluster_api_provider_sca.Result.{Result, ok, err, other}
use cluster_api_provider_sca.Api.Ports.{to_range}
use cluster_api_provider_sca.Api.Ports.Laws.{
  decimal, decimal_onto, IsDigit, to_range_single, to_range_pair,
}

-- The digits of a number before those of `rest`. The fuel is enough where it is the number.
print_onto : ℕ → ℕ → List ℕ → List ℕ
print_onto zero n rest = (b'0' + n) ∷ rest
print_onto (suc fuel) n rest =
    let longer = print_onto fuel (n / 10) ((b'0' + n % 10) ∷ rest) in
    if ltb n 10 then (b'0' + n) ∷ rest else longer

-- A number in decimal, without leading zeros.
unfoldable pub print : ℕ → List ℕ
unfolding print_onto
print n = print_onto n n []

print_onto-decimal :
    (fuel n : ℕ) (rest : List ℕ)
    → n ≤ fuel
    → decimal_onto 0 (print_onto fuel n rest) ≡ decimal_onto n rest
unfolding print_onto
print_onto-decimal zero n rest enough = ground arith
print_onto-decimal (suc fuel) n rest enough =
    let less : n / 10 ≤ fuel = omega (arith, enough) in
    let later = print_onto-decimal fuel (n / 10) ((b'0' + n % 10) ∷ rest) less in
    let same : n / 10 * 10 + (b'0' + n % 10 - b'0') ≡ n = omega arith in
    let whole = later ∙ ap (λ m. decimal_onto m rest) same in ground (arith, whole)

print_onto-digits :
    (fuel n : ℕ) (rest : List ℕ)
    → n ≤ fuel
    → All IsDigit rest
    → All IsDigit (print_onto fuel n rest)
unfolding print_onto
print_onto-digits zero n rest enough good = ((omega arith, omega (arith, enough)), good)
print_onto-digits (suc fuel) n rest enough good =
    let less : n / 10 ≤ fuel = omega (arith, enough) in
    let later =
      print_onto-digits fuel (n / 10) ((b'0' + n % 10) ∷ rest) less
        ((omega arith, omega arith), good) in
    ground (arith, later, good)

print-decimal : (n : ℕ) → decimal (print n) ≡ n
unfolding print
print-decimal n = print_onto-decimal n n [] (omega arith)

print-digits : (n : ℕ) → All IsDigit (print n)
unfolding print
print-digits n = print_onto-digits n n [] (omega arith) tt

print_onto-longer :
    (fuel n : ℕ) (rest : List ℕ) → (c : ℕ) × (s : List ℕ) × (print_onto fuel n rest ≡ c ∷ s)
unfolding print_onto
print_onto-longer zero n rest = (b'0' + n, rest, refl)
print_onto-longer (suc fuel) n rest = elim (Bool-cases (ltb n 10)) [
  | inl short ↦ (b'0' + n, rest, rw short refl)
  | inr long ↦
      let (c, s, same) = print_onto-longer fuel (n / 10) ((b'0' + n % 10) ∷ rest) in
      (c, s, rw long same)
]

read_one :
    (n a : ℕ) (r : Result (Option ℕ × Option ℕ))
    → n ≡ a
    → a < 2 ^ 32
    → r ≡ ok (some (n % 2 ^ 32), none)
    → r ≡ ok (some a, none)
read_one n a r same small read =
    let whole : n % 2 ^ 32 ≡ a = omega (arith, same, small) in
    read ∙ ap (λ (m : ℕ). ok (some m, none)) whole

read_two :
    (m n a b : ℕ) (r : Result (Option ℕ × Option ℕ))
    → m ≡ a
    → n ≡ b
    → a ≤ b
    → b < 2 ^ 32
    → r ≡ (
        if ltb n m
        then err (other "invalid port range: 'from' is higher than 'to'")
        else ok (some (m % 2 ^ 32), some (n % 2 ^ 32)))
    → r ≡ ok (some a, some b)
read_two m n a b r one two order small read =
    let low : m % 2 ^ 32 ≡ a = omega (arith, one, order, small) in
    let high : n % 2 ^ 32 ≡ b = omega (arith, two, small) in ground (arith, low, high, read)

-- A port below 2^32 that is written in decimal is read as itself, and so are two such ports in
-- order with a dash between them.
pub to_range-print :
    (a b : ℕ) (p q : String)
    → a ≤ b
    → b < 2 ^ 32
    → codes p ≡ print a
    → codes q ≡ print a ++ b'-' ∷ print b
    → (to_range (some p) ≡ ok (some a, none)) × (to_range (some q) ≡ ok (some a, some b))
unfolding print
to_range-print a b p q order small one two =
    let (c, s, e) = print_onto-longer a a [] in
    let (d, t, f) = print_onto-longer b b [] in
    let digits_a : All IsDigit (c ∷ s) = subst (All IsDigit) e (print-digits a) in
    let digits_b : All IsDigit (d ∷ t) = subst (All IsDigit) f (print-digits b) in
    let value_a : decimal (c ∷ s) ≡ a = rw⁻¹ e (print-decimal a) in
    let value_b : decimal (d ∷ t) ≡ b = rw⁻¹ f (print-decimal b) in
    let single =
      to_range_single p c s (one ∙ e) digits_a (rw value_a (omega (arith, order, small))) in
    let pair =
      to_range_pair q c s d t (two ∙ rw (e, f) refl) digits_a digits_b
        (rw value_a (omega (arith, order, small))) (rw value_b (omega (arith, small))) in
    (
      read_one (decimal (c ∷ s)) a (to_range (some p)) value_a (omega (arith, order, small)) single,
      read_two (decimal (c ∷ s)) (decimal (d ∷ t)) a b (to_range (some q)) value_a value_b order
          small pair,
    )
