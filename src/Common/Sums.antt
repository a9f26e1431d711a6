-- ===== src/Common/Sums.antt =====
-- Sums over the indices below a bound, and indices within a list.
use Prim.Native.Nat.{ℕ, zero, suc, ◌+◌, ◌≤◌, ◌<◌}
use mathlib.Core.Path.{◌≡◌, refl}
use mathlib.Core.Logic.{inl, inr}
use mathlib.Core.List.{List, [], ◌∷◌}
use mathlib.Core.Option.{some}
use native.Mathlib.Omega.{arith}
use neo_init_ware.Common.Tests.{◌==◌, Bool-cases}
use neo_init_ware.Common.Lists.{length, get_elem?}

abbrev pub sum_below : ℕ → (ℕ → ℕ) → ℕ
sum_below zero f = 0
sum_below (suc n) f = f n + sum_below n f

pub sum_below-le : (n : ℕ) (f g : ℕ → ℕ) → ((i : ℕ) → f i ≤ g i) → sum_below n f ≤ sum_below n g
sum_below-le zero f g h = omega arith
sum_below-le (suc n) f g h = omega (arith, h n, sum_below-le n f g h)

pub sum_below-lt :
    (n p : ℕ) (f g : ℕ → ℕ)
    → ((i : ℕ) → f i ≤ g i)
    → p < n
    → f p < g p
    → sum_below n f < sum_below n g
sum_below-lt zero p f g h below lt = absurd (omega arith)
sum_below-lt (suc n) p f g h below lt = elim (Bool-cases (p == n)) [
  | inl last ↦
      let e : n ≡ p = ground arith in
      let at : f n < g n = rw e lt in omega (arith, sum_below-le n f g h)
  | inr other ↦ omega (arith, h n, sum_below-lt n p f g h (ground arith) lt)
]

pub live-lt {ℓ} :
    {A : Type ℓ} (xs : List A) (i : ℕ) (a : A) → get_elem? xs i ≡ some a → i < length xs
live-lt [] i a at = cc
live-lt (x ∷ xs) zero a at = omega arith
live-lt (x ∷ xs) (suc i) a at = omega (arith, live-lt xs i a at)

pub lt-live {ℓ} :
    {A : Type ℓ} (xs : List A) (i : ℕ) → i < length xs → (a : A) × (get_elem? xs i ≡ some a)
lt-live [] i h = absurd (omega arith)
lt-live (x ∷ xs) zero h = (x, refl)
lt-live (x ∷ xs) (suc i) h = lt-live xs i (omega arith)

-- Where one index loses `d` and none gains, the sum loses `d`.
pub sum_below-less :
    (n p d : ℕ) (f g : ℕ → ℕ)
    → ((i : ℕ) → f i ≤ g i)
    → p < n
    → f p + d ≤ g p
    → sum_below n f + d ≤ sum_below n g
sum_below-less zero p d f g h below lt = absurd (omega arith)
sum_below-less (suc n) p d f g h below lt = elim (Bool-cases (p == n)) [
  | inl last ↦
      let e : n ≡ p = ground arith in
      let at : f n + d ≤ g n = rw e lt in omega (arith, sum_below-le n f g h)
  | inr other ↦ omega (arith, h n, sum_below-less n p d f g h (ground arith) lt)
]
