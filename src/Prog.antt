-- ===== src/Prog.antt =====
-- Programs that call the outside. A program is the tree of its calls, with a branch for every
-- answer; a handler answers each request from a state, and may change it, in any way.
pub mod Laws
pub mod Runs
pub mod Bound
use cluster_api_provider_sca.Prelude.{Bool, true, false, Option, none, some, List, [], ◌∷◌, ◌++◌}
use cluster_api_provider_sca.Result.{Result, ok, err, panicked, wrapped, optional}
use cluster_api_provider_sca.Cloud.{Request, Answer, Reply, reads}

pub data Prog {ℓ} (A : Type ℓ) : Type ℓ where
  ret : A → Prog A
  call : (q : Request) → (Reply q → Prog A) → Prog A

abbrev pub bind {ℓ κ} : {A : Type ℓ} {B : Type κ} → Prog A → (A → Prog B) → Prog B
bind (ret a) f = f a
bind (call q k) f = call q (λ r. bind (k r) f)

-- A call that may fail or panic.
abbrev pub Io {ℓ} : Type ℓ → Type ℓ
Io A = Prog (Result A)

abbrev pub continue {ℓ κ} : {A : Type ℓ} {B : Type κ} → (A → Io B) → Result A → Io B
continue f (ok a) = f a
continue f (err e) = ret (err e)
continue f panicked = ret panicked

infixl 5 ◌>>=◌ ◌>>◌
abbrev pub ◌>>=◌ {ℓ κ} : {A : Type ℓ} {B : Type κ} → Io A → (A → Io B) → Io B
m >>= f = bind m (continue f)

abbrev pub ◌>>◌ {ℓ κ} : {A : Type ℓ} {B : Type κ} → Io A → Io B → Io B
m >> n = m >>= λ _. n

abbrev pub pure {ℓ} : {A : Type ℓ} → A → Io A
pure a = ret (ok a)

abbrev pub lift {ℓ} : {A : Type ℓ} → Result A → Io A
lift r = ret r

abbrev pub ask : (q : Request) → Io (Answer q)
ask q = call q ret

-- A function such as `wrapped` on the result of a program, and `optional` on it.
abbrev pub wrapping {ℓ κ} : {A : Type ℓ} {B : Type κ} → Io A → (Result A → Result B) → Io B
wrapping m f = bind m (λ r. ret (f r))

abbrev pub or_nil {ℓ} : {A : Type ℓ} → Io A → Io (Option A)
or_nil m = bind m (λ r. ret (optional r))

abbrev pub Handler : Type 0 → Type 0
Handler S = (q : Request) → S → Reply q × S

module _ {S : Type 0} (h : Handler S) where
  -- The result of a program, the state that it leaves, and the requests that it makes, in order.
  abbrev pub result {ℓ} : {A : Type ℓ} → Prog A → S → A
  result (ret a) s = a
  result (call q k) s = result (k (h q s).0) (h q s).1

  abbrev pub final {ℓ} : {A : Type ℓ} → Prog A → S → S
  final (ret a) s = s
  final (call q k) s = final (k (h q s).0) (h q s).1

  abbrev pub requests {ℓ} : {A : Type ℓ} → Prog A → S → List Request
  requests (ret a) s = []
  requests (call q k) s = q ∷ requests (k (h q s).0) (h q s).1

abbrev pub changes_of : Request → List Request → List Request
changes_of q rest = elim (reads q) [ true ↦ rest | false ↦ q ∷ rest ]

-- The requests of a run that are not reads.
abbrev pub changes {ℓ} : {S : Type 0} (h : Handler S) {A : Type ℓ} → Prog A → S → List Request
changes h (ret a) s = []
changes h (call q k) s = changes_of q (changes h (k (h q s).0) (h q s).1)
