-- ===== src/Base/Outcome.antt =====
-- What a run of the C code can come to, and its monad.
use mathlib.Core.Path.{◌≡◌, refl}
use mathlib.Core.Bool.{Bool, true, false}
use lama_rv_workshop.Base.Tests.{if◌then◌else◌}
use Prim.Native.String.{String}

-- The calls of `failure`, by their message.
pub data Failure : Type 0 where
  boxed_expected unboxed_expected string_expected : String → Failure
  message : String → Failure

-- `exited` is `exit(1)` or a signal that the program sends itself, `fault` is behaviour that C
-- leaves undefined, and `out_of_fuel` is no outcome of the C code.
pub data Outcome {ℓ} (A : Type ℓ) : Type ℓ where
  ok : A → Outcome A
  failure : Failure → Outcome A
  exited : Outcome A
  fault : Outcome A
  out_of_fuel : Outcome A

-- A check of the source that calls `failure` where it does not hold.
abbrev pub guard : (holds : Bool) → Failure → Outcome (Unit {0})
guard false e = failure e
guard true _ = ok tt

-- What follows is done only after a result.
infixl 5 ◌>>=◌
abbrev pub ◌>>=◌ {ℓ κ} :
    {X : Type ℓ} {Y : Type κ} (m : Outcome X) (next : X → Outcome Y) → Outcome Y
fault >>= next = fault
exited >>= next = exited
out_of_fuel >>= next = out_of_fuel
failure e >>= next = failure e
ok x >>= next = next x

infixl 5 ◌>>◌
abbrev pub ◌>>◌ {ℓ} : {Y : Type ℓ} (m : Outcome (Unit {0})) (next : Outcome Y) → Outcome Y
m >> next = m >>= (λ done. next)

pub ok-injective {ℓ} : {X : Type ℓ} (x y : X) → ok x ≡ ok y → x ≡ y
ok-injective x y e = cc

-- A result of a sequence comes from a result of its first part.
pub >>=-eq-ok {ℓ κ} :
    {X : Type ℓ} {Y : Type κ} (m : Outcome X) (next : X → Outcome Y) {y : Y}
    → (m >>= next) ≡ ok y
    → (x : X) × (m ≡ ok x) × (next x ≡ ok y)
>>=-eq-ok fault next e = cc
>>=-eq-ok exited next e = cc
>>=-eq-ok out_of_fuel next e = cc
>>=-eq-ok (failure f) next e = cc
>>=-eq-ok (ok x) next e = (x, refl, e)

-- A sequence that is run in another grouping.
pub >>=-run {ℓ κ ν} :
    {X : Type ℓ} {Y : Type κ} {Z : Type ν} (m : Outcome X) (f : X → Outcome Y) (g : Y → Outcome Z)
    (y : Y) (out : Outcome Z)
    → (m >>= f) ≡ ok y
    → g y ≡ out
    → (m >>= λ x. f x >>= g) ≡ out
>>=-run fault f g y out e h = cc
>>=-run exited f g y out e h = cc
>>=-run out_of_fuel f g y out e h = cc
>>=-run (failure r) f g y out e h = cc
>>=-run (ok x) f g y out e h = rw e h

-- The outcome is not for lack of fuel, and a result satisfies `P`.
abbrev pub Post {ℓ} : {X : Type ℓ} → (X → Type 0) → Outcome X → Type 0
Post P (ok x) = P x
Post P out_of_fuel = ⊥
Post P _ = Unit

pub Post-bind {ℓ κ} :
    {X : Type ℓ} {Y : Type κ} (P : Y → Type 0) (m : Outcome X) (next : X → Outcome Y)
    → Post (λ x. Post P (next x)) m
    → Post P (m >>= next)
Post-bind P (ok x) next h = h
Post-bind P (failure e) next h = tt
Post-bind P exited next h = tt
Post-bind P fault next h = tt
Post-bind P out_of_fuel next h = h

pub Post-weaken {ℓ} :
    {X : Type ℓ} (P Q : X → Type 0) (m : Outcome X) → ((x : X) → P x → Q x) → Post P m → Post Q m
Post-weaken P Q (ok x) step h = step x h
Post-weaken P Q (failure e) step h = tt
Post-weaken P Q exited step h = tt
Post-weaken P Q fault step h = tt
Post-weaken P Q out_of_fuel step h = h

pub Post-if {ℓ} :
    {X : Type ℓ} (P : X → Type 0) (b : Bool) (m n : Outcome X)
    → Post P m
    → Post P n
    → Post P (if b then m else n)
Post-if P true m n h k = h
Post-if P false m n h k = k

-- Nothing is asked of a result, so the outcome is only not for lack of fuel.
pub Post-any {ℓ κ} :
    {X : Type ℓ} {Y : Type κ} (P : Y → Type 0) (m : Outcome X) (next : X → Outcome Y)
    → Post (λ _. Unit {0}) m
    → ((x : X) → Post P (next x))
    → Post P (m >>= next)
Post-any P (ok x) next h k = k x
Post-any P (failure e) next h k = tt
Post-any P exited next h k = tt
Post-any P fault next h k = tt
Post-any P out_of_fuel next h k = h
