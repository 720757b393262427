-- ===== src/Base/Errors.antt =====
-- Python exceptions as values.
use Prim.Native.Nat.{ℕ}
use mathlib.Core.Path.{◌≡◌, refl}
use mathlib.Core.Logic.{◌⊎◌, inl, inr}
use mathlib.Core.Bool.{Bool, true, false}
use mathlib.Core.Option.{Option, none, some}

-- The classes of exceptions that the program raises, catches or lets through.
-- `http_error` is FastAPI's HTTPException with its status code; `os_error` is OSError, which a command
-- that cannot be spawned raises.
pub data Error : Type 0 where
  transport_error value_error validation_error command_not_allowed redis_error : Error
  key_error index_error attribute_error type_error os_error overflow_error : Error
  zero_division_error : Error
  http_error : ℕ → Error

-- What a call returns, or what it raises.
pub data Result {ℓ} (A : Type ℓ) : Type ℓ where
  err : Error → Result A
  ok : A → Result A

module _ {ℓ κ} {A : Type ℓ} {B : Type κ} where
  infixl 5 ◌>>=◌
  abbrev pub ◌>>=◌ : Result A → (A → Result B) → Result B
  err e >>= next = err e
  ok result >>= next = next result

-- What holds of every result that a call returns.
abbrev pub OnOk {ℓ κ} : {A : Type ℓ} → (A → Type κ) → Result A → Type κ
OnOk P (ok a) = P a
OnOk P (err e) = Unit

pub OnOk-weaken {ℓ κ μ} :
    {A : Type ℓ} (P : A → Type κ) (Q : A → Type μ) (r : Result A)
    → OnOk P r
    → ((a : A) → P a → Q a)
    → OnOk Q r
OnOk-weaken P Q (ok a) h f = f a h
OnOk-weaken P Q (err e) h f = tt

pub OnOk-bind {ℓ κ μ ν} :
    {A : Type ℓ} {B : Type κ} (P : A → Type μ) (Q : B → Type ν) (r : Result A) (f : A → Result B)
    → OnOk P r
    → ((a : A) → P a → OnOk Q (f a))
    → OnOk Q (r >>= f)
OnOk-bind P Q (ok a) f h g = g a h
OnOk-bind P Q (err e) f h g = tt

pub OnOk-self {ℓ} : {A : Type ℓ} (r : Result A) → OnOk (λ a. r ≡ ok a) r
OnOk-self (ok a) = refl
OnOk-self (err e) = tt

pub OnOk-then {ℓ κ ν} :
    {A : Type ℓ} {B : Type κ} (Q : B → Type ν) (r : Result A) (f : A → Result B)
    → ((a : A) → r ≡ ok a → OnOk Q (f a))
    → OnOk Q (r >>= f)
OnOk-then Q (ok a) f g = g a refl
OnOk-then Q (err e) f g = tt

-- `d[k]` and the like: a missing value raises `e`.
abbrev pub or_raise {ℓ} : {A : Type ℓ} → Option A → Error → Result A
or_raise (some a) e = ok a
or_raise none e = err e

-- isinstance(e, ValueError): pydantic's ValidationError and CommandNotAllowed are subclasses.
abbrev pub is_value_error : Error → Bool
is_value_error value_error = true
is_value_error validation_error = true
is_value_error command_not_allowed = true
is_value_error _ = false

-- except (TransportError, ValueError)
abbrev pub is_transport_or_value_error : Error → Bool
is_transport_or_value_error transport_error = true
is_transport_or_value_error e = is_value_error e

-- except RedisError
abbrev pub is_redis_error : Error → Bool
is_redis_error redis_error = true
is_redis_error _ = false

pub Result-cases {ℓ} :
    {A : Type ℓ} (r : Result A) → ((a : A) × (r ≡ ok a)) ⊎ ((e : Error) × (r ≡ err e))
Result-cases (ok a) = inl (a, refl)
Result-cases (err e) = inr (e, refl)
