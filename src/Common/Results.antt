-- ===== src/Common/Results.antt =====
-- How a computation of the program ends: with a value, or at an error.
use mathlib.Core.Path.{◌≡◌, refl}
use mathlib.Core.Bool.{Bool, true, false}
use Prim.Native.String.{String}
use native.Mathlib.Omega.{arith}

-- `thrown` is a C++ exception, `assert_failed` an assertion, `undefined` a read that C++ leaves
-- undefined (a null or dangling pointer, the front of an empty list). `out_of_fuel` is none of the
-- program's: it says that the model's bound on a recursion was too small.
pub data Error : Type 0 where
  thrown : String → Error
  assert_failed undefined out_of_fuel : Error

pub data Result {ℓ} (A : Type ℓ) : Type ℓ where
  ok : A → Result A
  err : Error → Result A

-- An assertion.
abbrev pub guard : (holds : Bool) (otherwise : Error) → Result (Unit {0})
guard false otherwise = err otherwise
guard true otherwise = ok tt

infixl 5 ◌>>=◌ ◌>>◌
abbrev pub ◌>>=◌ {ℓ κ} :
    {Before : Type ℓ} {After : Type κ}
    → (first : Result Before) (later : Before → Result After) → Result After
err why >>= later = err why
ok x >>= later = later x

abbrev pub ◌>>◌ {ℓ} :
    {After : Type ℓ} → (first : Result (Unit {0})) (later : Result After) → Result After
first >> later = first >>= λ _. later

pub ok-injective {ℓ} : {A : Type ℓ} {a b : A} → ok a ≡ ok b → a ≡ b
ok-injective e = cc

pub second_is {ℓ} :
    {A B : Type ℓ} {a b : A} {t u : B} → ◌≡◌ {A = Result (A × B)} (ok (a, t)) (ok (b, u)) → t ≡ u
second_is e = cc

-- If two steps return, so does the first, and the second from there.
pub >>=-eq-ok {ℓ κ} :
    {Before : Type ℓ} {After : Type κ} (first : Result Before) (later : Before → Result After)
    {y : After}
    → (first >>= later) ≡ ok y
    → (x : Before) × (first ≡ ok x) × (later x ≡ ok y)
>>=-eq-ok (err why) later returns = cc
>>=-eq-ok (ok x) later returns = (x, refl, returns)

pub >>=-runs {ℓ κ} :
    {Before : Type ℓ} {After : Type κ} (first : Result Before) (later : Before → Result After)
    {x : Before} {r : Result After}
    → first ≡ ok x
    → later x ≡ r
    → (first >>= later) ≡ r
>>=-runs (ok b) later e h = ground (arith, ok-injective e)
>>=-runs (err why) later e h = cc
