-- ===== src/Base/Result.antt =====
-- C++ exceptions as values.
use mathlib.Core.Path.{◌≡◌, refl}
use mathlib.Core.Logic.{◌⊎◌, inl, inr}
use mathlib.Core.Bool.{Bool, true, false}

-- The exception types that the sources throw or catch; messages are left out.
-- `system_error` is what Boost.Asio throws.
pub data Exception : Type 0 where
  runtime_error system_error invalid_argument out_of_range domain_error : Exception

-- What a handler `catch (std::runtime_error &)` takes: the others derive from `std::logic_error`.
abbrev pub is_runtime_error : Exception → Bool
is_runtime_error Exception.runtime_error = true
is_runtime_error Exception.system_error = true
is_runtime_error _ = false

pub data Result {ℓ} (A : Type ℓ) : Type ℓ where
  ok : A → Result A
  throws : Exception → Result A

infixl 5 ◌>>=◌ ◌>>◌
abbrev pub ◌>>=◌ {ℓ κ} : {A : Type ℓ} {B : Type κ} → Result A → (A → Result B) → Result B
ok a >>= f = f a
throws e >>= f = throws e

abbrev pub ◌>>◌ {ℓ} : {B : Type ℓ} → Result (Unit {0}) → Result B → Result B
m >> k = m >>= λ _. k

-- A step over a state that outlives an exception: the state at the end, or at the throw.
pub data Outcome {ℓ} (S : Type ℓ) : Type ℓ where
  done : S → Outcome S
  failed : Exception → S → Outcome S

abbrev pub and_then {ℓ} : {S : Type ℓ} → Outcome S → (S → Outcome S) → Outcome S
and_then (done s) f = f s
and_then (failed e s) f = failed e s

pub Result-cases {ℓ} :
    {A : Type ℓ} (r : Result A) → ((a : A) × (r ≡ ok a)) ⊎ ((x : Exception) × (r ≡ throws x))
Result-cases (ok a) = inl (a, refl)
Result-cases (throws x) = inr (x, refl)

pub ok-injective {ℓ} : {A : Type ℓ} {a b : A} → ok a ≡ ok b → a ≡ b
ok-injective e = cc

-- A `do` block that returns has returned in each step.
pub bind-ok {ℓ κ} :
    {A : Type ℓ} {B : Type κ} (m : Result A) (f : A → Result B) (b : B)
    → (m >>= f) ≡ ok b
    → (a : A) × (m ≡ ok a) × (f a ≡ ok b)
bind-ok (ok a) f b e = (a, refl, e)
bind-ok (throws x) f b e = cc
