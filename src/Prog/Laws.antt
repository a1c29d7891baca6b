-- ===== src/Prog/Laws.antt =====
-- How a run of a sequence is made of the runs of its parts.
use cluster_api_provider_sca.Prelude.{◌≡◌, refl, sym, ap, ◌∙◌, true, false, List, ◌∷◌, ◌++◌, Bool}
use mathlib.Core.List.{append-nil}
use cluster_api_provider_sca.Result.{Error, Result, ok, err, panicked}
use cluster_api_provider_sca.Cloud.{Request, reads}
use cluster_api_provider_sca.Prog.{
  Prog, Io, ret, call, bind, continue, ◌>>=◌, Handler, result, final, requests, changes, changes_of,
}

module _ {ℓ κ} {S : Type 0} {A : Type ℓ} {B : Type κ} (h : Handler S) where
  pub result-bind :
      (m : Prog A) (f : A → Prog B) (s : S)
      → result h (bind m f) s ≡ result h (f (result h m s)) (final h m s)
  result-bind (ret a) f s = refl
  result-bind (call q k) f s = result-bind (k (h q s).0) f (h q s).1

  pub final-bind :
      (m : Prog A) (f : A → Prog B) (s : S)
      → final h (bind m f) s ≡ final h (f (result h m s)) (final h m s)
  final-bind (ret a) f s = refl
  final-bind (call q k) f s = final-bind (k (h q s).0) f (h q s).1

  pub requests-bind :
      (m : Prog A) (f : A → Prog B) (s : S)
      → requests h (bind m f) s ≡ requests h m s ++ requests h (f (result h m s)) (final h m s)
  requests-bind (ret a) f s = refl
  requests-bind (call q k) f s = ap (λ l. q ∷ l) (requests-bind (k (h q s).0) f (h q s).1)

changes_of-append :
    (q : Request) (xs ys : List Request) → changes_of q (xs ++ ys) ≡ changes_of q xs ++ ys
changes_of-append q xs ys = go (reads q)
  where
    go :
        (b : Bool)
        → (elim b as (λ _. List Request) [ true ↦ xs ++ ys | false ↦ q ∷ (xs ++ ys) ])
          ≡ (elim b as (λ _. List Request) [ true ↦ xs | false ↦ q ∷ xs ]) ++ ys
    go true = refl
    go false = refl

module _ {ℓ κ} {S : Type 0} {A : Type ℓ} {B : Type κ} (h : Handler S) where
  pub changes-bind :
      (m : Prog A) (f : A → Prog B) (s : S)
      → changes h (bind m f) s ≡ changes h m s ++ changes h (f (result h m s)) (final h m s)
  changes-bind (ret a) f s = refl
  changes-bind (call q k) f s =
      ap (changes_of q) (changes-bind (k (h q s).0) f (h q s).1) ∙ changes_of-append q _ _

-- A sequence of fallible programs that succeeds is the first part, which succeeds, and then the
-- second.
pub record Sequence {ℓ κ} {S : Type 0} {A : Type ℓ} {B : Type κ} (h : Handler S) (m : Io A)
    (f : A → Io B) (s : S) (b : B) : Type (ℓ ⊔ κ) where
  pub value : A
  pub first : result h m s ≡ ok value
  pub second : result h (f value) (final h m s) ≡ ok b
  pub changed : changes h (m >>= f) s ≡ changes h m s ++ changes h (f value) (final h m s)
  pub left : final h (m >>= f) s ≡ final h (f value) (final h m s)

module _ {ℓ κ} {S : Type 0} {A : Type ℓ} {B : Type κ} (h : Handler S) (m : Io A) (f : A → Io B)
    (s : S) where
  Sequence-of :
      {b : B} (r : Result A)
      → result h m s ≡ r
      → result h (continue f r) (final h m s) ≡ ok b
      → changes h (m >>= f) s ≡ changes h m s ++ changes h (continue f r) (final h m s)
      → final h (m >>= f) s ≡ final h (continue f r) (final h m s)
      → Sequence h m f s b
  Sequence-of (ok a) e p c l = record { value = a; first = e; second = p; changed = c; left = l }
  Sequence-of (err e') e p c l = cc
  Sequence-of panicked e p c l = cc

  pub bind_ok : {b : B} → result h (m >>= f) s ≡ ok b → Sequence h m f s b
  bind_ok done =
      Sequence-of (result h m s) refl (sym (result-bind h m (continue f) s) ∙ done)
        (changes-bind h m (continue f) s) (final-bind h m (continue f) s)

  -- What follows from the success of the second part, whatever the first one gave, follows from
  -- that of the sequence.
  pub bind_post {μ} :
      {Q : Type μ} {b : B}
      → result h (m >>= f) s ≡ ok b
      → ((a : A) (t : S) → result h (f a) t ≡ ok b → Q)
      → Q
  bind_post done last = let parts = bind_ok done in last parts.value _ parts.second

module _ {ℓ κ μ} {S : Type 0} {A : Type ℓ} {B : Type κ} (h : Handler S) (f : A → Io B) (s : S) where
  -- The same for a first part that is a plain result.
  pub continue_post :
      {Q : Type μ} {b : B} (r : Result A)
      → result h (continue f r) s ≡ ok b
      → ((a : A) → r ≡ ok a → result h (f a) s ≡ ok b → Q)
      → Q
  continue_post (ok a) done last = last a refl done
  continue_post (err e) done last = absurd (cc)
  continue_post panicked done last = absurd (cc)

-- A sequence whose first part gives a value, and one whose first part fails.
module _ {ℓ κ} {S : Type 0} {A : Type ℓ} {B : Type κ} (h : Handler S) (m : Io A) (f : A → Io B)
    (s : S) where
  pub bind_value :
      {a : A}
      → result h m s ≡ ok a
      → (result h (m >>= f) s ≡ result h (f a) (final h m s))
        × (changes h (m >>= f) s ≡ changes h m s ++ changes h (f a) (final h m s))
        × (final h (m >>= f) s ≡ final h (f a) (final h m s))
  bind_value given = (
    result-bind h m (continue f) s ∙ rw given refl,
    changes-bind h m (continue f) s ∙ rw given refl,
    final-bind h m (continue f) s ∙ rw given refl,
  )

  pub bind_error :
      {e : Error}
      → result h m s ≡ err e
      → (result h (m >>= f) s ≡ err e)
        × (changes h (m >>= f) s ≡ changes h m s)
        × (final h (m >>= f) s ≡ final h m s)
  bind_error failed = (
    result-bind h m (continue f) s ∙ rw failed refl,
    changes-bind h m (continue f) s ∙ rw failed (append-nil _),
    final-bind h m (continue f) s ∙ rw failed refl,
  )
