-- ===== src/Prelude/Outcomes.antt =====
-- How a C++ call ends: it returns, it throws, or it has no defined behaviour (a read or a write
-- outside a buffer). Texts of exceptions are dropped.
use Prim.Native.Nat.{ℕ, zero, suc, ◌≤◌, ◌<◌}
use mathlib.Core.Path.{◌≡◌, refl}
use mathlib.Core.Bool.{Bool, true, false}
use mathlib.Core.Option.{Option, none, some}
use mathlib.Core.List.{List, [], ◌∷◌}
use native.Mathlib.Omega.{arith}
use simple_socket.Prelude.Lists.{get_elem?, get_or, set, length}
use simple_socket.Prelude.Tests.{ltb, if◌then◌else◌}

pub data Exception : Type 0 where
  out_of_range runtime_error invalid_argument length_error socket_error : Exception

pub data Outcome {ℓ} (A : Type ℓ) : Type ℓ where
  ok : A → Outcome A
  throw : Exception → Outcome A
  fault : Outcome A

infixl 5 ◌>>=◌ ◌>>◌
abbrev pub ◌>>=◌ {ℓ κ} : {A : Type ℓ} {B : Type κ} → Outcome A → (A → Outcome B) → Outcome B
ok a >>= f = f a
throw e >>= f = throw e
fault >>= f = fault

abbrev pub ◌>>◌ {ℓ} : {B : Type ℓ} → Outcome (Unit {0}) → Outcome B → Outcome B
m >> k = m >>= λ _. k

abbrev pub or_fault {ℓ} : {A : Type ℓ} → Option A → Outcome A
or_fault none = fault
or_fault (some a) = ok a

-- `v[i]` on a vector: no check, and no meaning out of range.
abbrev pub elem : List ℕ → ℕ → Outcome ℕ
elem xs i = or_fault (get_elem? xs i)

abbrev pub throw_if : Bool → Exception → Outcome (Unit {0})
throw_if true e = throw e
throw_if false e = ok tt

-- `v[i] = x` on a vector.
abbrev pub store : List ℕ → ℕ → ℕ → Outcome (List ℕ)
store xs i v = if ltb i (length xs) then ok (set xs i v) else fault

pub elem-ok : (xs : List ℕ) (i : ℕ) → i < length xs → elem xs i ≡ ok (get_or xs i 0)
elem-ok [] i h = absurd (omega arith)
elem-ok (x ∷ xs) zero h = refl
elem-ok (x ∷ xs) (suc i) h = elem-ok xs i (omega arith)

pub elem-fault : (xs : List ℕ) (i : ℕ) → length xs ≤ i → elem xs i ≡ fault
elem-fault [] i h = refl
elem-fault (x ∷ xs) zero h = absurd (omega arith)
elem-fault (x ∷ xs) (suc i) h = elem-fault xs i (omega arith)

pub store-ok : (xs : List ℕ) (i v : ℕ) → i < length xs → store xs i v ≡ ok (set xs i v)
store-ok xs i v h = ground arith

-- A chain that returns went through its first part.
pub >>=-ok {ℓ κ} :
    {B : Type κ} {A : Type ℓ} {y : B} (first : Outcome A) (later : A → Outcome B)
    → (first >>= later) ≡ ok y
    → (x : A) × (first ≡ ok x) × (later x ≡ ok y)
>>=-ok fault later gone = cc
>>=-ok (throw e) later gone = cc
>>=-ok (ok x) later done = (x, refl, done)

pub or_fault-ok {ℓ} : {A : Type ℓ} {x : A} (o : Option A) → or_fault o ≡ ok x → o ≡ some x
or_fault-ok (some x) e = cc
or_fault-ok none e = cc
