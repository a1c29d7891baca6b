-- ===== src/Result.antt =====
-- Go's error values and the results of fallible functions.
-- The sentinels are those of internal/service/scaleway/client/client.go,
-- internal/service/scaleway/instance/instance.go, internal/service/scaleway/loadbalancer/loadbalancer.go
-- and internal/scope/machine.go.
use cluster_api_provider_sca.Prelude.{String, Bool, true, false, Option, none, some}

-- `wrap` is `fmt.Errorf("…: %w", err)`, with the text before the colon.
pub data Error : Type 0 where
  no_item_found : Error
  too_many_items_found : Error
  private_ip_not_found : Error
  machine_has_no_ip : Error
  bootstrap_data_not_ready : Error
  load_balancer_not_ready : Error
  not_found : Error
  precondition_failed : Error
  other : String → Error
  wrap : String → Error → Error

-- `panicked` is a nil pointer that was followed: no error check sees it.
pub data Result {ℓ} (A : Type ℓ) : Type ℓ where
  ok : A → Result A
  err : Error → Result A
  panicked : Result A

-- `errors.Is` with each sentinel, and `errors.As` with the SDK's PreconditionFailedError.
abbrev pub is_no_item_found : Error → Bool
is_no_item_found no_item_found = true
is_no_item_found (wrap s e) = is_no_item_found e
is_no_item_found _ = false

abbrev pub is_private_ip_not_found : Error → Bool
is_private_ip_not_found private_ip_not_found = true
is_private_ip_not_found (wrap s e) = is_private_ip_not_found e
is_private_ip_not_found _ = false

abbrev pub is_machine_has_no_ip : Error → Bool
is_machine_has_no_ip machine_has_no_ip = true
is_machine_has_no_ip (wrap s e) = is_machine_has_no_ip e
is_machine_has_no_ip _ = false

abbrev pub is_bootstrap_data_not_ready : Error → Bool
is_bootstrap_data_not_ready bootstrap_data_not_ready = true
is_bootstrap_data_not_ready (wrap s e) = is_bootstrap_data_not_ready e
is_bootstrap_data_not_ready _ = false

abbrev pub is_load_balancer_not_ready : Error → Bool
is_load_balancer_not_ready load_balancer_not_ready = true
is_load_balancer_not_ready (wrap s e) = is_load_balancer_not_ready e
is_load_balancer_not_ready _ = false

abbrev pub is_not_found : Error → Bool
is_not_found not_found = true
is_not_found (wrap s e) = is_not_found e
is_not_found _ = false

abbrev pub is_precondition_failed : Error → Bool
is_precondition_failed precondition_failed = true
is_precondition_failed (wrap s e) = is_precondition_failed e
is_precondition_failed _ = false

infixl 5 ◌>>=◌
abbrev pub ◌>>=◌ {ℓ κ} : {A : Type ℓ} {B : Type κ} → Result A → (A → Result B) → Result B
ok a >>= f = f a
err e >>= f = err e
panicked >>= f = panicked

-- `if err != nil { return nil, fmt.Errorf("text: %w", err) }`
abbrev pub wrapped {ℓ} : {A : Type ℓ} → String → Result A → Result A
wrapped text (ok a) = ok a
wrapped text (err e) = err (wrap text e)
wrapped text panicked = panicked

-- `if err != nil && !errors.Is(err, ErrNoItemFound) { return err }`, after which the item is nil
-- where there was none.
abbrev pub optional_error {ℓ} : {A : Type ℓ} → Bool → Error → Result (Option A)
optional_error true e = ok none
optional_error false e = err e

abbrev pub optional {ℓ} : {A : Type ℓ} → Result A → Result (Option A)
optional (ok a) = ok (some a)
optional (err e) = optional_error (is_no_item_found e) e
optional panicked = panicked

-- `*p`
abbrev pub deref {ℓ} : {A : Type ℓ} → Option A → Result A
deref (some a) = ok a
deref none = panicked
