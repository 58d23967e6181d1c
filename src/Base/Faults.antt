-- ===== src/Base/Faults.antt =====
-- The outcome of code that can run into undefined behaviour: a value, or the fault that it met.
use mathlib.Core.Path.{◌≡◌, refl, subst}
use mathlib.Core.Bool.{Bool, true, false}

pub data Fault : Type 0 where
  out_of_bounds null_pointer indeterminate double_free stale_iterator bad_alloc signed_overflow
        dangling_pointer :
      Fault

pub data Outcome {ℓ} (A : Type ℓ) : Type ℓ where
  ok : A → Outcome A
  fault : Fault → Outcome A

-- Goes on where the test holds, and faults where it does not.
abbrev pub check : (holds : Bool) (otherwise : Fault) → Outcome (Unit {0})
check false otherwise = fault otherwise
check true otherwise = ok tt

infixl 5 ◌>>◌ ◌>>=◌
-- The first fault ends the code.
abbrev pub ◌>>=◌ {ι κ} :
    {X : Type ι} {Y : Type κ} (m : Outcome X) (next : X → Outcome Y) → Outcome Y
fault why >>= next = fault why
ok x >>= next = next x

abbrev pub ◌>>◌ {κ} : {Y : Type κ} (m : Outcome (Unit {0})) (next : Outcome Y) → Outcome Y
fault why >> next = fault why
ok x >> next = next

-- Code that comes to an end came through its first part.
pub >>=-eq-ok {ι κ} :
    {X : Type ι} {Y : Type κ} {y : Y} (first : Outcome X) (next : X → Outcome Y)
    → (first >>= next) ≡ ok y
    → (x : X) × (first ≡ ok x) × (next x ≡ ok y)
>>=-eq-ok (fault why) next ended = cc
>>=-eq-ok (ok x) next ended = (x, refl, ended)

-- Code whose first part ends well goes on with the rest.
pub >>=-first {ι κ} :
    {X : Type ι} {Y : Type κ} {x : X} {y : Y} (first : Outcome X) (next : X → Outcome Y)
    → first ≡ ok x
    → (first >>= next) ≡ ok y
    → next x ≡ ok y
>>=-first (fault why) next begun ended = cc
>>=-first {x = x} {y = y} (ok z) next begun ended =
    let same : z ≡ x = cc in subst (λ z. next z ≡ ok y) same ended
