-- ===== src/Common/Lists.antt =====
-- Lists as the program's sequences, sets of pointers and maps.
use Prim.Native.Nat.{ℕ, zero, suc, ◌+◌, ◌≤◌}
use Prim.Native.String.{String}
use mathlib.Core.Path.{◌≡◌, refl, ap}
use mathlib.Core.Logic.{◌⊎◌, inl, inr}
use mathlib.Core.Bool.{Bool, false, ◌||◌}
use mathlib.Core.List.{List, [], ◌∷◌, ◌++◌}
use mathlib.Core.Option.{Option, none, some}
use native.Mathlib.Omega.{arith}
use text.Mathlib.TextEquality.{eq_iff}
use neo_init_ware.Common.Tests.{◌==◌, ltb, same_name, if◌then◌else◌}

module _ {ℓ} {A : Type ℓ} where
  abbrev pub length : List A → ℕ
  length [] = 0
  length (x ∷ xs) = suc (length xs)

  abbrev pub get_elem? : List A → ℕ → Option A
  get_elem? [] i = none
  get_elem? (x ∷ xs) zero = some x
  get_elem? (x ∷ xs) (suc i) = get_elem? xs i

  abbrev pub take : ℕ → List A → List A
  take zero xs = []
  take (suc n) [] = []
  take (suc n) (x ∷ xs) = x ∷ take n xs

  pub length-take-le : (n : ℕ) (xs : List A) → length (take n xs) ≤ n
  length-take-le zero xs = omega arith
  length-take-le (suc n) [] = omega arith
  length-take-le (suc n) (x ∷ xs) = omega (arith, length-take-le n xs)

  -- A change of one element. Out of bounds nothing is changed.
  abbrev pub change : List A → ℕ → (A → A) → List A
  change [] i f = []
  change (x ∷ xs) zero f = f x ∷ xs
  change (x ∷ xs) (suc i) f = x ∷ change xs i f

  abbrev pub All {κ} : (A → Type κ) → List A → Type κ
  All P [] = Unit
  All P (x ∷ xs) = P x × All P xs

  pub length-append : (xs ys : List A) → length (xs ++ ys) ≡ length xs + length ys
  length-append [] ys = omega arith
  length-append (x ∷ xs) ys = omega (arith, length-append xs ys)

  pub append_one : (xs : List A) (x : A) (ys : List A) → (xs ++ (x ∷ [])) ++ ys ≡ xs ++ (x ∷ ys)
  append_one [] x ys = refl
  append_one (z ∷ zs) x ys = ap (λ l. z ∷ l) (append_one zs x ys)

  pub append_none : (xs : List A) → xs ++ [] ≡ xs
  append_none [] = refl
  append_none (z ∷ zs) = ap (λ l. z ∷ l) (append_none zs)

  pub length-append_one : (xs : List A) (a : A) → length (xs ++ (a ∷ [])) ≡ suc (length xs)
  length-append_one xs a = omega (arith, length-append xs (a ∷ []))

  pub get_elem?-append :
      (xs ys : List A) (i : ℕ) {a : A} → get_elem? xs i ≡ some a → get_elem? (xs ++ ys) i ≡ some a
  get_elem?-append [] ys i h = cc
  get_elem?-append (x ∷ xs) ys zero h = h
  get_elem?-append (x ∷ xs) ys (suc i) h = get_elem?-append xs ys i h

module _ {ℓ} {A : Type ℓ} (f : A → A) where
  pub length-change : (xs : List A) (i : ℕ) → length (change xs i f) ≡ length xs
  length-change [] i = refl
  length-change (x ∷ xs) zero = refl
  length-change (x ∷ xs) (suc i) = omega (arith, length-change xs i)

  pub get_elem?-change :
      (xs : List A) (i j : ℕ) (a : A)
      → get_elem? xs j ≡ some a
      → get_elem? (change xs i f) j ≡ some (if i == j then f a else a)
  get_elem?-change [] i j a at = cc
  get_elem?-change (x ∷ xs) zero zero a at = ground arith
  get_elem?-change (x ∷ xs) zero (suc j) a at = ground arith
  get_elem?-change (x ∷ xs) (suc i) zero a at = ground arith
  get_elem?-change (x ∷ xs) (suc i) (suc j) a at = ground (arith, get_elem?-change xs i j a at)

pub List-cases {ℓ} :
    {A : Type ℓ} (xs : List A) → (xs ≡ []) ⊎ ((x : A) × (rest : List A) × (xs ≡ x ∷ rest))
List-cases [] = inl refl
List-cases (x ∷ xs) = inr (x, xs, refl)

pub get_elem?-append_last {ℓ} :
    {A : Type ℓ} (xs : List A) (a : A) → get_elem? (xs ++ (a ∷ [])) (length xs) ≡ some a
get_elem?-append_last [] a = refl
get_elem?-append_last (x ∷ xs) a = get_elem?-append_last xs a

-- Sets of pointers.
abbrev pub contains : ℕ → List ℕ → Bool
contains a [] = false
contains a (x ∷ xs) = a == x || contains a xs

-- Every occurrence is erased, as in a set.
abbrev pub erase : ℕ → List ℕ → List ℕ
erase a [] = []
erase a (x ∷ xs) = if a == x then erase a xs else x ∷ erase a xs

abbrev pub contains_name : String → List String → Bool
contains_name a [] = false
contains_name a (x ∷ xs) = same_name a x || contains_name a xs

pub contains-append :
    (a : ℕ) (xs ys : List ℕ) → contains a (xs ++ ys) ≡ (contains a xs || contains a ys)
contains-append a [] ys = refl
contains-append a (x ∷ xs) ys = ground (arith, contains-append a xs ys)

pub contains-erase :
    (a b : ℕ) (xs : List ℕ) → contains a (erase b xs) ≡ (if a == b then false else contains a xs)
contains-erase a b [] = ground arith
contains-erase a b (x ∷ xs) = ground (arith, contains-erase a b xs)

-- A function on pointers, changed at one of them.
abbrev pub update {ℓ} : {A : Type ℓ} → (ℕ → A) → ℕ → A → ℕ → A
update f p v q = if p == q then v else f q

module _ {ℓ} {V : Type ℓ} where
  -- Maps with names for keys.
  abbrev pub lookup : String → List (String × V) → Option V
  lookup k [] = none
  lookup k ((j, v) ∷ m) = if same_name j k then some v else lookup k m

  abbrev pub insert : String → V → List (String × V) → List (String × V)
  insert name v [] = (name, v) ∷ []
  insert name v ((other, old) ∷ rest) =
      if same_name other name then (name, v) ∷ rest else (other, old) ∷ insert name v rest

  abbrev pub erase_name : String → List (String × V) → List (String × V)
  erase_name k [] = []
  erase_name k ((j, w) ∷ m) = if same_name j k then erase_name k m else (j, w) ∷ erase_name k m

  pub lookup-insert :
      (k j : String) (v : V) (m : List (String × V))
      → lookup j (insert k v m) ≡ (if same_name k j then some v else lookup j m)
  lookup-insert k j v [] = refl
  lookup-insert k j v ((i, w) ∷ m) =
      ground (arith, eq_iff k j, eq_iff i k, eq_iff i j, lookup-insert k j v m)

  pub lookup-erase_name :
      (k j : String) (m : List (String × V))
      → lookup j (erase_name k m) ≡ (if same_name k j then none else lookup j m)
  lookup-erase_name k j [] = ground arith
  lookup-erase_name k j ((i, w) ∷ m) =
      ground (arith, eq_iff k j, eq_iff i k, eq_iff i j, lookup-erase_name k j m)

  -- Maps with pointers for keys, in the order of the keys.
  abbrev pub find : ℕ → List (ℕ × V) → Option V
  find k [] = none
  find k ((j, v) ∷ m) = if j == k then some v else find k m

  abbrev pub put : ℕ → V → List (ℕ × V) → List (ℕ × V)
  put k v [] = (k, v) ∷ []
  put k v ((j, w) ∷ m) =
      let rest = put k v m in
      if j == k then (k, v) ∷ m else if ltb k j then (k, v) ∷ (j, w) ∷ m else (j, w) ∷ rest

  pub find-put :
      (k j : ℕ) (v : V) (m : List (ℕ × V))
      → find j (put k v m) ≡ (if k == j then some v else find j m)
  find-put k j v [] = refl
  find-put k j v ((i, w) ∷ m) = ground (arith, find-put k j v m)

pub cons_head {ℓ} : {A : Type ℓ} {x y : A} {xs ys : List A} → x ∷ xs ≡ y ∷ ys → x ≡ y
cons_head e = cc

pub cons_tail {ℓ} : {A : Type ℓ} {x y : A} {xs ys : List A} → x ∷ xs ≡ y ∷ ys → xs ≡ ys
cons_tail e = cc
