-- ===== src/Prog/Runs.antt =====
-- What every run of a program gives, and the rule for a sequence.
use cluster_api_provider_sca.Prelude.{◌≢◌, String, Bool, true, false, if◌then◌else◌}
use cluster_api_provider_sca.Result.{
  Error, Result, ok, err, panicked, wrapped, optional, optional_error, is_no_item_found,
}
use cluster_api_provider_sca.Cloud.{Request}
use cluster_api_provider_sca.Prog.{
  Io, ret, wrapping, or_nil, continue, ◌>>=◌, Handler, result, final,
}
use cluster_api_provider_sca.Prog.Laws.{result-bind}

-- A result that is a value of which `P` holds, or an error of which `E` does: no panic.
abbrev pub Meets {ℓ} : {A : Type ℓ} → (E : Error → Type 0) → (P : A → Type 0) → Result A → Type 0
Meets E P (ok a) = P a
Meets E P (err e) = E e
Meets E P panicked = ⊥

abbrev pub AnyError : Error → Type 0
AnyError e = Unit {0}

abbrev pub NoError : Error → Type 0
NoError e = ⊥

abbrev pub Any {ℓ} : {A : Type ℓ} → A → Type 0
Any a = Unit {0}

-- Every run of a program, from any state, has a result that meets the two.
abbrev pub Runs {ℓ} :
    {S : Type 0} {A : Type ℓ} → Handler S → (Error → Type 0) → (A → Type 0) → Io A → Type 0
Runs h E P m = (s : _) → Meets E P (result h m s)

-- What holds of both branches holds of the test.
pub either {ℓ κ} :
    {A : Type ℓ} (Q : A → Type κ) (b : Bool) (x y : A) → Q x → Q y → Q (if b then x else y)
either Q true x y left right = left
either Q false x y left right = right

pub Meets-calm {ℓ} : {A : Type ℓ} (r : Result A) → Meets AnyError Any r → r ≢ panicked
Meets-calm (ok a) fine p = absurd (cc)
Meets-calm (err e) fine p = absurd (cc)
Meets-calm panicked fine p = fine

module _ {ℓ κ} {S : Type 0} {A : Type ℓ} {B : Type κ} (h : Handler S) (E : Error → Type 0)
    (P : A → Type 0) (Q : B → Type 0) where
  pub continue-Meets :
      (f : A → Io B) (r : Result A) (s : S)
      → Meets E P r
      → ((a : A) → P a → Runs h E Q (f a))
      → Meets E Q (result h (continue f r) s)
  continue-Meets f (ok a) s first rest = rest a first s
  continue-Meets f (err e) s first rest = first
  continue-Meets f panicked s first rest = first

  pub Runs-bind :
      (m : Io A) (f : A → Io B)
      → Runs h E P m
      → ((a : A) → P a → Runs h E Q (f a))
      → Runs h E Q (m >>= f)
  Runs-bind m f first rest s =
      rw (result-bind h m (continue f) s)
        (continue-Meets f (result h m s) (final h m s) (first s) rest)

module _ {ℓ κ} {S : Type 0} {A : Type ℓ} {B : Type κ} (h : Handler S) (E D : Error → Type 0)
    (P : A → Type 0) (Q : B → Type 0) where
  -- A function on the result of a program.
  pub Runs-map :
      (m : Io A) (f : Result A → Result B)
      → Runs h E P m
      → ((r : Result A) → Meets E P r → Meets D Q (f r))
      → Runs h D Q (wrapping m f)
  Runs-map m f first rest s =
      rw (result-bind h m (λ r. ret (f r)) s) (rest (result h m s) (first s))

pub wrapped-Meets {ℓ} :
    {A : Type ℓ} (P : A → Type 0) (text : String) (r : Result A)
    → Meets AnyError P r
    → Meets AnyError P (wrapped text r)
wrapped-Meets P text (ok a) first = first
wrapped-Meets P text (err e) first = tt
wrapped-Meets P text panicked first = first

pub optional-Meets {ℓ} :
    {A : Type ℓ} (r : Result A) → Meets AnyError Any r → Meets AnyError Any (optional r)
optional-Meets {A} (ok a) first = tt
optional-Meets {A} (err e) first = go (is_no_item_found e)
  where
    go : (b : Bool) → Meets AnyError Any (optional_error {A = A} b e)
    go true = tt
    go false = tt
optional-Meets {A} panicked first = first

module _ {ℓ} {S : Type 0} {A : Type ℓ} (h : Handler S) where
  pub Runs-wrapping :
      (P : A → Type 0) (text : String) (m : Io A)
      → Runs h AnyError P m
      → Runs h AnyError P (wrapping m (wrapped text))
  Runs-wrapping P text m first =
      Runs-map h AnyError AnyError P P m (wrapped text) first (wrapped-Meets P text)

  pub Runs-or_nil : (m : Io A) → Runs h AnyError Any m → Runs h AnyError Any (or_nil m)
  Runs-or_nil m first = Runs-map h AnyError AnyError Any Any m optional first optional-Meets

-- Where there is no error, there is none that does not have a property.
pub answered-Meets {ℓ} :
    {A : Type ℓ} (E : Error → Type 0) (P : A → Type 0) (r : Result A)
    → Meets NoError P r
    → Meets E P r
answered-Meets E P (ok a) fine = fine
answered-Meets E P (err e) fine = absurd fine
answered-Meets E P panicked fine = fine

-- An outside that never makes a call of it panic.
abbrev pub IsCalm : {S : Type 0} → Handler S → Type 0
IsCalm h = (q : Request) (s : _) → Meets AnyError Any (h q s).0

-- An outside that answers every call.
abbrev pub IsWilling : {S : Type 0} → Handler S → Type 0
IsWilling h = (q : Request) (s : _) → Meets NoError Any (h q s).0
