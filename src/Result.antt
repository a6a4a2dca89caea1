-- ===== src/Result.antt =====
-- Results of calls that return an `error`. Of an error the model keeps its kind; the text that
-- `fmt.Errorf` wraps around it is not modelled.
use pangolin_kube_controller.Prelude.{◌≡◌, refl, Bool, true, false}

-- The kinds of errors of the Kubernetes API that the controller tells apart (package
-- k8s.io/apimachinery/pkg/api/errors).
pub data ApiError : Type 0 where
  not_found conflict timeout server_timeout too_many_requests service_unavailable other : ApiError

pub data Error : Type 0 where
  unmarshal marshal : Error
  missing_rule_and_service missing_rule missing_service : Error
  unknown_service no_port_suffix bad_number invalid_port missing_port inconsistent_ports : Error
  missing_load_balancer no_servers invalid_server missing_address bad_address : Error
  mixed_families : Error
  api : ApiError → Error

pub data Result {ℓ} (A : Type ℓ) : Type ℓ where
  ok : A → Result A
  err : Error → Result A

-- The first error ends a chain of results.
infixl 5 ◌>>=◌
abbrev pub ◌>>=◌ {ℓ κ} : {A : Type ℓ} {B : Type κ} → Result A → (A → Result B) → Result B
ok x >>= next = next x
err why >>= next = err why

-- Inversion of a successful bind.
pub >>=-eq-ok {ℓ κ} :
    {A : Type ℓ} {B : Type κ} (r : Result A) (next : A → Result B) {y : B}
    → (r >>= next) ≡ ok y
    → (x : A) × (r ≡ ok x) × (next x ≡ ok y)
>>=-eq-ok (ok x) next done = (x, refl, done)
>>=-eq-ok (err why) next done = cc

-- errors.IsNotFound
abbrev pub is_not_found : Error → Bool
is_not_found (api not_found) = true
is_not_found _ = false
