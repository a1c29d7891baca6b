-- ===== src/Prog/Bound.antt =====
-- How many requests a program makes.
use cluster_api_provider_sca.Prelude.{ℕ, ◌+◌, ◌≤◌, ◌≡◌, ap, ◌∙◌, List, [], ◌∷◌, ◌++◌, length, arith}
use cluster_api_provider_sca.Result.{Result, ok, err, panicked}
use cluster_api_provider_sca.Prog.{
  Prog, Io, bind, continue, ◌>>=◌, Handler, result, final, requests,
}
use cluster_api_provider_sca.Prog.Laws.{requests-bind}

length-append {ℓ} : {A : Type ℓ} (xs ys : List A) → length (xs ++ ys) ≡ length xs + length ys
length-append [] ys = omega arith
length-append (x ∷ xs) ys = let later = length-append xs ys in omega (arith, later)

-- At most so many requests, from any state.
abbrev pub Bounded {ℓ} : {S : Type 0} {A : Type ℓ} → Handler S → ℕ → Prog A → Type 0
Bounded h n m = (s : _) → length (requests h m s) ≤ n

module _ {ℓ κ} {S : Type 0} {A : Type ℓ} {B : Type κ} (h : Handler S) where
  pub Bounded-bind :
      (a b : ℕ) (m : Prog A) (f : A → Prog B)
      → Bounded h a m
      → ((r : A) → Bounded h b (f r))
      → Bounded h (a + b) (bind m f)
  Bounded-bind a b m f first rest s =
      let whole =
        ap length (requests-bind h m f s)
        ∙ length-append (requests h m s) (requests h (f (result h m s)) (final h m s)) in
      let one = first s in
      let two = rest (result h m s) (final h m s) in omega (arith, whole, one, two)

module _ {ℓ κ} {S : Type 0} {A : Type ℓ} {B : Type κ} (h : Handler S) where
  continue-Bounded :
      (b : ℕ) (f : A → Io B)
      → ((a : A) → Bounded h b (f a))
      → (r : Result A) → Bounded h b (continue f r)
  continue-Bounded b f rest (ok a) = rest a
  continue-Bounded b f rest (err e) = λ s. omega arith
  continue-Bounded b f rest panicked = λ s. omega arith

  -- A sequence of fallible programs.
  pub Bounded-then :
      (a b : ℕ) (m : Io A) (f : A → Io B)
      → Bounded h a m
      → ((x : A) → Bounded h b (f x))
      → Bounded h (a + b) (m >>= f)
  Bounded-then a b m f first rest =
      Bounded-bind h a b m (continue f) first (continue-Bounded b f rest)
