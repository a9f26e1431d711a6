-- ===== src/Tx/Links.antt =====
-- The links between jobs and requirements: every requirement in memory stands in the list `reqs` of
-- the job that it is from and in the list `reqs_on` of the job that it is on, and nothing else stands
-- in these lists.
pub mod Unlink
pub mod Deletion
pub mod Destroy
pub mod Grow
pub mod Require
pub mod Submitted
pub mod Deleted
pub mod Cycles
pub mod Merged
pub mod Merging
pub mod Whole
use neo_init_ware.Common.{
  ℕ, ◌≡◌, ◌==◌, Bool, true, false, Option, none, some, List, [], ◌∷◌, refl, contains,
  contains-erase, erase, ◌&&◌, Bool-cases, Option-cases, inl, inr, if◌then◌else◌, arith,
}
use neo_init_ware.Tx.Model.{Job, Requirement, Transaction, modify_job}
use neo_init_ware.Tx.Delete.{erase_req, erase_req_on}

abbrev pub reqs_in : Option Job → List ℕ
reqs_in none = []
reqs_in (some b) = b.reqs

abbrev pub on_in : Option Job → List ℕ
on_in none = []
on_in (some b) = b.reqs_on

abbrev pub reqs_of : Transaction → ℕ → List ℕ
reqs_of tx j = reqs_in (tx.job j)

abbrev pub on_of : Transaction → ℕ → List ℕ
on_of tx j = on_in (tx.job j)

abbrev pub from_is : ℕ → Option Requirement → Bool
from_is j none = false
from_is j (some q) = q.from == j

abbrev pub to_is : ℕ → Option Requirement → Bool
to_is j none = false
to_is j (some q) = q.to == j

-- The requirement is in memory, and is from the job.
abbrev pub is_from : Transaction → ℕ → ℕ → Bool
is_from tx r j = from_is j (tx.req r)

-- The same for the job that it is on.
abbrev pub is_on : Transaction → ℕ → ℕ → Bool
is_on tx r j = to_is j (tx.req r)

abbrev pub IsOnce : List ℕ → Type 0
IsOnce [] = Unit {0}
IsOnce (x ∷ xs) = (contains x xs ≡ false) × IsOnce xs

pub record IsLinked (tx : Transaction) : Type 0 where
  pub from : (j r : ℕ) → contains r (reqs_of tx j) ≡ is_from tx r j
  pub on : (j r : ℕ) → contains r (on_of tx j) ≡ is_on tx r j
  pub once : (j : ℕ) → IsOnce (reqs_of tx j)
  pub once_on : (j : ℕ) → IsOnce (on_of tx j)

-- A job without its links.
abbrev pub blank : Option Job → Option Job
blank none = none
blank (some b) = some (record b { reqs = []; reqs_on = [] })

pub erase-IsOnce : (r : ℕ) (xs : List ℕ) → IsOnce xs → IsOnce (erase r xs)
erase-IsOnce r [] once = tt
erase-IsOnce r (x ∷ xs) (new, once) = elim (Bool-cases (r == x)) [
  | inl same ↦ rw same (erase-IsOnce r xs once)
  | inr other ↦ rw other (ground (arith, contains-erase x r xs, new), erase-IsOnce r xs once)
]

-- How a job in memory changes.
abbrev pub changed : (Job → Job) → Option Job → Option Job
changed f o = elim o [ none ↦ none | some b ↦ some (f b) ]

-- A job on which there is a requirement is live, and stays so when a job changes.
pub holds_on : (r : ℕ) (o : Option Job) → contains r (on_in o) ≡ true → (b : Job) × (o ≡ some b)
holds_on r none h = cc
holds_on r (some b) h = (b, refl)

pub modify_job-live :
    (j : ℕ) (f : Job → Job) (k : ℕ) (tx : Transaction) (b : Job)
    → tx.job k ≡ some b
    → (c : Job) × ((modify_job j f tx).job k ≡ some c)
modify_job-live j f k tx b at = elim (Bool-cases (j == k)) [
  | inl same ↦ (f b, rw (same, at) refl)
  | inr other ↦ (b, rw (other, at) refl)
]

-- What a change of the lists of a job does.
module _ (r : ℕ) where
  reqs_in-erase_req : (o : Option Job) → reqs_in (changed (erase_req r) o) ≡ erase r (reqs_in o)
  reqs_in-erase_req none = refl
  reqs_in-erase_req (some b) = refl

  on_in-erase_req : (o : Option Job) → on_in (changed (erase_req r) o) ≡ on_in o
  on_in-erase_req none = refl
  on_in-erase_req (some b) = refl

  reqs_in-erase_req_on : (o : Option Job) → reqs_in (changed (erase_req_on r) o) ≡ reqs_in o
  reqs_in-erase_req_on none = refl
  reqs_in-erase_req_on (some b) = refl

  on_in-erase_req_on : (o : Option Job) → on_in (changed (erase_req_on r) o) ≡ erase r (on_in o)
  on_in-erase_req_on none = refl
  on_in-erase_req_on (some b) = refl

blank-changed :
    (f : Job → Job)
    → ((b : Job) → blank (some (f b)) ≡ blank (some b))
    → (o : Option Job) → blank (changed f o) ≡ blank o
blank-changed f keeps none = refl
blank-changed f keeps (some b) = keeps b

module _ (j r k : ℕ) (tx : Transaction) where
  pub reqs_of-erase_req :
      reqs_of (modify_job j (erase_req r) tx) k
      ≡ (if j == k then erase r (reqs_of tx k) else reqs_of tx k)
  reqs_of-erase_req = elim (Bool-cases (j == k)) [
    | inl same ↦ rw same (reqs_in-erase_req r (tx.job k))
    | inr other ↦ rw other refl
  ]

  pub on_of-erase_req : on_of (modify_job j (erase_req r) tx) k ≡ on_of tx k
  on_of-erase_req = pick (j == k)
    where
      pick :
          (c : Bool) → on_in (if c then changed (erase_req r) (tx.job k) else tx.job k) ≡ on_of tx k
      pick true = on_in-erase_req r (tx.job k)
      pick false = refl

  pub on_of-erase_req_on :
      on_of (modify_job j (erase_req_on r) tx) k
      ≡ (if j == k then erase r (on_of tx k) else on_of tx k)
  on_of-erase_req_on = elim (Bool-cases (j == k)) [
    | inl same ↦ rw same (on_in-erase_req_on r (tx.job k))
    | inr other ↦ rw other refl
  ]

  pub reqs_of-erase_req_on : reqs_of (modify_job j (erase_req_on r) tx) k ≡ reqs_of tx k
  reqs_of-erase_req_on = pick (j == k)
    where
      pick :
          (c : Bool)
          → reqs_in (if c then changed (erase_req_on r) (tx.job k) else tx.job k) ≡ reqs_of tx k
      pick true = reqs_in-erase_req_on r (tx.job k)
      pick false = refl

-- A change of the lists only.
pub blank-modify_job :
    (j : ℕ) (f : Job → Job) (k : ℕ) (tx : Transaction)
    → ((b : Job) → blank (some (f b)) ≡ blank (some b))
    → blank ((modify_job j f tx).job k) ≡ blank (tx.job k)
blank-modify_job j f k tx keeps = pick (j == k)
  where
    pick : (c : Bool) → blank (if c then changed f (tx.job k) else tx.job k) ≡ blank (tx.job k)
    pick true = blank-changed f keeps (tx.job k)
    pick false = refl
