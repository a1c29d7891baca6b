-- ===== src/Api/Ports/Laws.antt =====
-- What `ToRange` accepts and returns.
use cluster_api_provider_sca.Prelude.{
  ℕ, ◌+◌, ◌-◌, ◌*◌, ◌^◌, ◌%◌, ◌≤◌, ◌<◌, ◌≡◌, refl, String, some, none, List, [], ◌∷◌, ◌++◌, arith,
  All, ltb, if◌then◌else◌, pos,
}
use cluster_api_provider_sca.Prelude.Text.{codes}
use cluster_api_provider_sca.Result.{ok, err, other}
use cluster_api_provider_sca.Api.Ports.{
  split, digits, atoi, range_of_parts, range_of_codes, to_range,
}

-- The number that a list of decimal digits stands for, after the number `n` of digits before it.
abbrev pub decimal_onto : ℕ → List ℕ → ℕ
decimal_onto n [] = n
decimal_onto n (c ∷ s) = decimal_onto (n * 10 + (c - b'0')) s

abbrev pub decimal : List ℕ → ℕ
decimal = decimal_onto 0

abbrev pub IsDigit : ℕ → Type 0
IsDigit c = (b'0' ≤ c) × (c ≤ b'9')

digits-eq : (s : List ℕ) (n : ℕ) → All IsDigit s → digits s n ≡ some (decimal_onto n s)
unfolding digits
digits-eq [] n h = refl
digits-eq (c ∷ s) n ((low, high), h) = ground (arith, digits-eq s (n * 10 + (c - b'0')) h)

split-digits : (s : List ℕ) → All IsDigit s → split s b'-' ≡ s ∷ []
unfolding split
split-digits [] h = refl
split-digits (c ∷ s) ((low, high), h) = rw (split-digits s h) (ground arith)

split-append : (s t : List ℕ) → All IsDigit s → split (s ++ b'-' ∷ t) b'-' ≡ s ∷ split t b'-'
unfolding split
split-append [] t h = refl
split-append (c ∷ s) t ((low, high), h) = rw (split-append s t h) (ground arith)

atoi-eq :
    (c : ℕ) (s : List ℕ)
    → All IsDigit (c ∷ s)
    → decimal (c ∷ s) < 2 ^ 63
    → atoi (c ∷ s) ≡ ok (pos (decimal (c ∷ s)))
unfolding atoi
atoi-eq c s ((low, high), h) small = ground (arith, digits-eq s (0 * 10 + (c - b'0')) h)

-- The text of a range between two numbers.
abbrev pub range_text : ℕ → List ℕ → ℕ → List ℕ → List ℕ
range_text c s d t = (c ∷ s) ++ b'-' ∷ (d ∷ t)

-- A single number below 2^63 is accepted as a lower port without a higher one. The port is the
-- number modulo 2^32, since no bound is checked before the conversion.
pub to_range_single :
    (p : String) (c : ℕ) (s : List ℕ)
    → codes p ≡ c ∷ s
    → All IsDigit (c ∷ s)
    → decimal (c ∷ s) < 2 ^ 63
    → to_range (some p) ≡ ok (some (decimal (c ∷ s) % 2 ^ 32), none)
unfolding to_range range_of_codes range_of_parts
to_range_single p c s e h small = rw (e, split-digits (c ∷ s) h, atoi-eq c s h small)

-- Two numbers below 2^63 with a dash between them are accepted exactly when the first is not the
-- higher one. The ports returned are the two numbers modulo 2^32.
pub to_range_pair :
    (p : String) (c : ℕ) (s : List ℕ) (d : ℕ) (t : List ℕ)
    → codes p ≡ range_text c s d t
    → All IsDigit (c ∷ s)
    → All IsDigit (d ∷ t)
    → decimal (c ∷ s) < 2 ^ 63
    → decimal (d ∷ t) < 2 ^ 63
    → to_range (some p) ≡ (
        if ltb (decimal (d ∷ t)) (decimal (c ∷ s))
        then err (other "invalid port range: 'from' is higher than 'to'")
        else ok (some (decimal (c ∷ s) % 2 ^ 32), some (decimal (d ∷ t) % 2 ^ 32)))
unfolding to_range range_of_codes range_of_parts
to_range_pair p c s d t e hs ht small_s small_t =
    rw
      (
        e,
        split-append (c ∷ s) (d ∷ t) hs,
        split-digits (d ∷ t) ht,
        range_of_parts,
        atoi-eq c s hs small_s,
        atoi-eq d t ht small_t,
      )
      refl

-- The check of the order comes before the conversion to 32 bits: a lower number below 2^32 and a
-- higher one from 2^32 on, less than that lower number away from it, give an accepted range whose
-- lower port is above its higher one.
pub to_range_inverted :
    (p : String) (c : ℕ) (s : List ℕ) (d : ℕ) (t : List ℕ)
    → codes p ≡ range_text c s d t
    → All IsDigit (c ∷ s)
    → All IsDigit (d ∷ t)
    → decimal (c ∷ s) < 2 ^ 32
    → 2 ^ 32 ≤ decimal (d ∷ t)
    → decimal (d ∷ t) < 2 ^ 32 + decimal (c ∷ s)
    → (from : ℕ) × (to : ℕ) × (to_range (some p) ≡ ok (some from, some to)) × (to < from)
to_range_inverted p c s d t e hs ht low high near = (
  decimal (c ∷ s),
  decimal (d ∷ t) - 2 ^ 32,
  rw (to_range_pair p c s d t e hs ht (omega arith) (omega arith)) (ground arith),
  omega arith,
)
