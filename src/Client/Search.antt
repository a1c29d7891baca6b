-- ===== src/Client/Search.antt =====
-- The client of internal/service/scaleway/client/client.go, and the two shapes of its searches.
use cluster_api_provider_sca.Prelude.{String, Bool, Option, none, some, List, [], ◌∷◌, find_first}
use cluster_api_provider_sca.Result.{Result, ok, err, no_item_found, too_many_items_found, wrap}

-- The API clients are the outside: what is left is the default project.
pub record Client : Type 0 where
  pub project_id : String

abbrev pub item_or_missing {ℓ} : {A : Type ℓ} → Option A → Result A
item_or_missing none = err no_item_found
item_or_missing (some a) = ok a

-- `for _, x := range xs { if p(x) { return x, nil } }; return nil, ErrNoItemFound`
abbrev pub first_item {ℓ} : {A : Type ℓ} → (A → Bool) → List A → Result A
first_item p xs = item_or_missing (find_first p xs)

-- The only item of a list.
abbrev pub only_item {ℓ} : {A : Type ℓ} → List A → Result A
only_item [] = err no_item_found
only_item (x ∷ []) = ok x
only_item _ = err (wrap "found several IPs" too_many_items_found)
