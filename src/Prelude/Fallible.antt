-- ===== src/Prelude/Fallible.antt =====
-- Chains of calls that return a value or an error and change nothing.
use k8s_lb_controller.Prelude.Results.{Result, ok, err}
use mathlib.Core.Path.{◌≡◌, refl}
use mathlib.Core.Bool.{Bool, true, false}
use native.Mathlib.Omega.{arith}

infixl 5 ◌>>=◌
abbrev pub ◌>>=◌ : {X A B : Type 0} → Result X A → (A → Result X B) → Result X B
err x >>= next = err x
ok value >>= next = next value

infixl 5 ◌>>◌
abbrev pub ◌>>◌ : {X B : Type 0} → Result X (Unit {0}) → Result X B → Result X B
check >> rest = check >>= λ _. rest

-- An early return when the test fails.
abbrev pub require : {X : Type 0} → Bool → X → Result X (Unit {0})
require false x = err x
require true x = ok tt

-- An error of a callee as one of the caller.
abbrev pub lift_error : {X Y A : Type 0} → (X → Y) → Result X A → Result Y A
lift_error f (ok a) = ok a
lift_error f (err x) = err (f x)

pub >>=-eq-ok :
    {X A B : Type 0} (r : Result X A) (next : A → Result X B) {answer : B}
    → (r >>= next) ≡ ok answer
    → (value : A) × (r ≡ ok value) × (next value ≡ ok answer)
>>=-eq-ok (err x) next h = absurd (ground arith)
>>=-eq-ok (ok value) next h = (value, refl, h)

pub require-eq-ok : {X : Type 0} (b : Bool) (x : X) {u : Unit {0}} → require b x ≡ ok u → b ≡ true
require-eq-ok true x h = refl
require-eq-ok false x h = absurd (ground arith)

pub lift_error-eq-ok :
    {X Y A : Type 0} (f : X → Y) (r : Result X A) {a : A} → lift_error f r ≡ ok a → r ≡ ok a
lift_error-eq-ok f (ok a) h = ground arith
lift_error-eq-ok f (err x) h = absurd (ground arith)
