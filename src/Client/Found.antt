-- ===== src/Client/Found.antt =====
-- Searches of internal/service/scaleway/client over an outside that answers.
use cluster_api_provider_sca.Prelude.{
  ◌≡◌, refl, Bool, String, Option, none, some, List, [], ◌∷◌, All, find_first, find_first-All,
}
use cluster_api_provider_sca.Result.{
  Result, Error, ok, err, panicked, wrapped, optional, no_item_found,
}
use cluster_api_provider_sca.Prog.{Io, Handler, lift, wrapping, or_nil, ◌>>=◌, result}
use cluster_api_provider_sca.Prog.Runs.{Runs, Runs-bind, Runs-map, Meets, NoError, Any}
use cluster_api_provider_sca.Client.Search.{first_item, item_or_missing}

-- What holds of the item, where there is one.
abbrev pub IfAny {ℓ} : {A : Type ℓ} → (A → Type 0) → Option A → Type 0
IfAny P none = Unit {0}
IfAny P (some a) = P a

-- The only error is that there is no item.
abbrev pub Missing : Error → Type 0
Missing e = e ≡ no_item_found

module _ {ℓ} {A : Type ℓ} (P : A → Type 0) where
  first_item-Meets : (p : A → Bool) (xs : List A) → All P xs → Meets Missing P (first_item p xs)
  first_item-Meets p xs all = go (find_first p xs) refl
    where
      go : (o : Option A) → find_first p xs ≡ o → Meets Missing P (item_or_missing o)
      go none e = refl
      go (some a) e = find_first-All P p xs a all e

  optional-IfAny : (r : Result A) → Meets Missing P r → Meets NoError (IfAny P) (optional r)
  optional-IfAny (ok a) fine = fine
  optional-IfAny (err e) fine = rw fine tt
  optional-IfAny panicked fine = fine

  strengthen : (r : Result (List A)) → Meets NoError (All P) r → Meets Missing (All P) r
  strengthen (ok xs) fine = fine
  strengthen (err e) fine = absurd fine
  strengthen panicked fine = fine

module _ {ℓ} {S : Type 0} {A : Type ℓ} (h : Handler S) (P : A → Type 0) where
  pub wrapping_answered :
      (text : String) (m : Io A) → Runs h NoError P m → Runs h NoError P (wrapping m (wrapped text))
  wrapping_answered text m first = Runs-map h NoError NoError P P m (wrapped text) first go
    where
      go : (r : Result A) → Meets NoError P r → Meets NoError P (wrapped text r)
      go (ok a) fine = fine
      go (err e) fine = absurd fine
      go panicked fine = fine

  -- A search by a test over a listing that answers.
  pub search_found :
      (m : Io (List A)) (p : A → Bool)
      → Runs h NoError (All P) m
      → Runs h NoError (IfAny P) (or_nil (m >>= λ xs. lift (first_item p xs)))
  search_found m p first =
      let search = m >>= λ xs. lift (first_item p xs) in
      Runs-map h Missing NoError P (IfAny P) search optional
        (Runs-bind h Missing (All P) P m (λ xs. lift (first_item p xs))
          (λ s. strengthen P (result h m s) (first s)) (λ xs all s. first_item-Meets P p xs all))
        (optional-IfAny P)

module _ {ℓ} {A : Type ℓ} where
  All-any : (xs : List A) → All Any xs
  All-any [] = tt
  All-any (x ∷ xs) = (tt, All-any xs)

  weaken-All : (r : Result (List A)) → Meets NoError Any r → Meets NoError (All Any) r
  weaken-All (ok xs) fine = All-any xs
  weaken-All (err e) fine = absurd fine
  weaken-All panicked fine = fine

  weaken_found : (r : Result (Option A)) → Meets NoError (IfAny Any) r → Meets NoError Any r
  weaken_found (ok o) fine = tt
  weaken_found (err e) fine = absurd fine
  weaken_found panicked fine = fine

  -- The same, where nothing is known of the items.
  pub search_answered :
      {S : Type 0} (h : Handler S) (m : Io (List A)) (p : A → Bool)
      → Runs h NoError Any m
      → Runs h NoError Any (or_nil (m >>= λ xs. lift (first_item p xs)))
  search_answered h m p first s =
      weaken_found _ (search_found h Any m p (λ t. weaken-All (result h m t) (first t)) s)
