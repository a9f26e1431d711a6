-- ===== src/Tx/Links/Merged.antt =====
-- Merging of one job into another keeps the links.
use neo_init_ware.Common.{
  ℕ, ◌≡◌, ◌==◌, ◌∙◌, ap, sym, Bool, true, false, ◌&&◌, ◌||◌, Option, none, some, List, [], ◌∷◌,
  refl, contains, Bool-cases, inl, inr, if◌then◌else◌, arith,
}
use neo_init_ware.Tx.Model.{Job, Requirement, Transaction}
use neo_init_ware.Tx.Generate.{modify_req, merge_set, left_of_merge, redirect_from, redirect_to}
use neo_init_ware.Tx.Links.{IsOnce, from_is, to_is, changed}

pub contains-merge_set :
    (i : ℕ) (into from : List ℕ)
    → contains i (merge_set into from) ≡ (contains i into || contains i from)
contains-merge_set i into [] = ground arith
contains-merge_set i into (r ∷ rs) = elim (Bool-cases (i == r)) [
  | inl same ↦
      let i_is : i ≡ r = ground arith in rw i_is (ground (arith, contains-merge_set r into rs))
  | inr other ↦ ground (arith, contains-merge_set i into rs)
]

pub contains-left_of_merge :
    (i : ℕ) (into from : List ℕ)
    → contains i (left_of_merge into from) ≡ (contains i into && contains i from)
contains-left_of_merge i into [] = ground arith
contains-left_of_merge i into (r ∷ rs) = elim (Bool-cases (i == r)) [
  | inl same ↦
      let i_is : i ≡ r = ground arith in rw i_is (ground (arith, contains-left_of_merge r into rs))
  | inr other ↦ ground (arith, contains-left_of_merge i into rs)
]

merge_set-IsOnce : (into from : List ℕ) → IsOnce into → IsOnce from → IsOnce (merge_set into from)
merge_set-IsOnce into [] once other = once
merge_set-IsOnce into (r ∷ rs) once (new, other) = elim (Bool-cases (contains r into)) [
  | inl old ↦ rw old (merge_set-IsOnce into rs once other)
  | inr absent ↦ rw absent (
    ground (arith, contains-merge_set r into rs, absent, new),
    merge_set-IsOnce into rs once other,
  )
]

left_of_merge-IsOnce : (into from : List ℕ) → IsOnce from → IsOnce (left_of_merge into from)
left_of_merge-IsOnce into [] once = tt
left_of_merge-IsOnce into (r ∷ rs) (new, once) = elim (Bool-cases (contains r into)) [
  | inl old ↦
      rw old
        (ground (arith, contains-left_of_merge r into rs, new), left_of_merge-IsOnce into rs once)
  | inr absent ↦ rw absent (left_of_merge-IsOnce into rs once)
]

-- A requirement that is made to be from another job, or on another job.
abbrev pub redirected :
    (f : Requirement → Requirement) → Bool → Option Requirement → Option Requirement
redirected f true none = none
redirected f true (some q) = some (f q)
redirected f false o = o

modify_req-at :
    (r : ℕ) (f : Requirement → Requirement) (tx : Transaction) (i : ℕ)
    → (modify_req r f tx).req i ≡ redirected f (r == i) (tx.req i)
modify_req-at r f tx i = pick (r == i) (tx.req i)
  where
    pick :
        (c : Bool) (o : Option Requirement)
        → (if c then (elim o [ none ↦ none | some q ↦ some (f q) ]) else o) ≡ redirected f c o
    pick true none = refl
    pick true (some q) = refl
    pick false o = refl

redirected_twice :
    (f : Requirement → Requirement) (a b : Bool) (o : Option Requirement)
    → ((q : Requirement) → f (f q) ≡ f q)
    → redirected f a (redirected f b o) ≡ redirected f (b || a) o
redirected_twice f true true none again = refl
redirected_twice f true true (some q) again = ap some (again q)
redirected_twice f true false none again = refl
redirected_twice f true false (some q) again = refl
redirected_twice f false true none again = refl
redirected_twice f false true (some q) again = refl
redirected_twice f false false o again = refl

module _ (into : ℕ) where
  abbrev pub from_into : Requirement → Requirement
  from_into q = record q { from = into }

  abbrev pub to_into : Requirement → Requirement
  to_into q = record q { to = into }

  pub redirect_from-req :
      (rs : List ℕ) (tx : Transaction) (i : ℕ)
      → (redirect_from into rs tx).req i ≡ redirected from_into (contains i rs) (tx.req i)
  unfolding redirect_from
  redirect_from-req [] tx i = refl
  redirect_from-req (r ∷ rs) tx i =
      let turn : (r == i) ≡ (i == r) = ground arith in
      redirect_from-req rs (modify_req r from_into tx) i
      ∙ ap (redirected from_into (contains i rs)) (modify_req-at r from_into tx i)
      ∙ redirected_twice from_into (contains i rs) (r == i) (tx.req i) (λ q. refl)
      ∙ ap (λ b. redirected from_into (b || contains i rs) (tx.req i)) turn

  pub redirect_to-req :
      (rs : List ℕ) (tx : Transaction) (i : ℕ)
      → (redirect_to into rs tx).req i ≡ redirected to_into (contains i rs) (tx.req i)
  unfolding redirect_to
  redirect_to-req [] tx i = refl
  redirect_to-req (r ∷ rs) tx i =
      let turn : (r == i) ≡ (i == r) = ground arith in
      redirect_to-req rs (modify_req r to_into tx) i
      ∙ ap (redirected to_into (contains i rs)) (modify_req-at r to_into tx i)
      ∙ redirected_twice to_into (contains i rs) (r == i) (tx.req i) (λ q. refl)
      ∙ ap (λ b. redirected to_into (b || contains i rs) (tx.req i)) turn

  pub redirect_from-job : (rs : List ℕ) (tx : Transaction) → (redirect_from into rs tx).job ≡ tx.job
  unfolding redirect_from
  redirect_from-job [] tx = refl
  redirect_from-job (r ∷ rs) tx = redirect_from-job rs (modify_req r from_into tx)

  pub redirect_to-job : (rs : List ℕ) (tx : Transaction) → (redirect_to into rs tx).job ≡ tx.job
  unfolding redirect_to
  redirect_to-job [] tx = refl
  redirect_to-job (r ∷ rs) tx = redirect_to-job rs (modify_req r to_into tx)

-- A merge, seen at one requirement with the job `n` at its end.
merged_test :
    (job into k n : ℕ)
    → (if job == k
        then (n == into) && (if into == k then (n == k) || (n == job) else (n == k))
        else (if into == k then (n == k) || (n == job) else (n == k)))
      ≡ (if n == job then into == k else n == k)
merged_test job into k n = ground arith

-- The list of a job after a merge, by what the list held before.
abbrev pub merge_lists : (here target : Bool) (in_target in_k in_job : Bool) → Bool
merge_lists here target in_target in_k in_job =
    let filled = if target then in_k || in_job else in_k in
    if here then in_target && filled else filled

pub merged_from :
    (job into k : ℕ) (o : Option Requirement)
    → merge_lists (job == k) (into == k) (from_is into o) (from_is k o) (from_is job o)
      ≡ from_is k (redirected (from_into into) (from_is job o) o)
merged_from job into k none = ground arith
merged_from job into k (some q) = merged_test job into k q.from ∙ pick (q.from == job)
  where
    pick :
        (c : Bool)
        → (if c then into == k else q.from == k)
          ≡ from_is k (redirected (from_into into) c (some q))
    pick true = refl
    pick false = refl

pub merged_to :
    (job into k : ℕ) (o : Option Requirement)
    → merge_lists (job == k) (into == k) (to_is into o) (to_is k o) (to_is job o)
      ≡ to_is k (redirected (to_into into) (to_is job o) o)
merged_to job into k none = ground arith
merged_to job into k (some q) = merged_test job into k q.to ∙ pick (q.to == job)
  where
    pick :
        (c : Bool)
        → (if c then into == k else q.to == k) ≡ to_is k (redirected (to_into into) c (some q))
    pick true = refl
    pick false = refl

pub from_is-to_into :
    (into k : ℕ) (c : Bool) (o : Option Requirement)
    → from_is k (redirected (to_into into) c o) ≡ from_is k o
from_is-to_into into k true none = refl
from_is-to_into into k true (some q) = refl
from_is-to_into into k false o = refl

pub to_is-inner :
    (into k : ℕ) (c d : Bool) (o : Option Requirement)
    → to_is k (redirected (to_into into) c (redirected (from_into into) d o))
      ≡ to_is k (redirected (to_into into) c o)
to_is-inner into k true true none = refl
to_is-inner into k true true (some q) = refl
to_is-inner into k false true none = refl
to_is-inner into k false true (some q) = refl
to_is-inner into k c false o = refl

pub changed_list :
    (get : Option Job → List ℕ) (f : Job → Job) (h : List ℕ → List ℕ)
    → get none ≡ []
    → ((b : Job) → get (some (f b)) ≡ h (get (some b)))
    → (c : Bool) (o : Option Job) → (c ≡ true → o ≡ none → h [] ≡ [])
    → get (if c then changed f o else o) ≡ (if c then h (get o) else get o)
changed_list get f h empty does true none keeps = empty ∙ sym (ap h empty ∙ keeps refl refl)
changed_list get f h empty does true (some b) keeps = does b
changed_list get f h empty does false o keeps = refl

pub contains-merged :
    (i : ℕ) (here target : Bool) (in_target in_k in_job : List ℕ)
    → contains i (
        if here
        then left_of_merge in_target (if target then merge_set in_k in_job else in_k)
        else (if target then merge_set in_k in_job else in_k))
      ≡ merge_lists here target (contains i in_target) (contains i in_k) (contains i in_job)
contains-merged i true true a b c =
    contains-left_of_merge i a (merge_set b c)
    ∙ ap (λ x. contains i a && x) (contains-merge_set i b c)
contains-merged i true false a b c = contains-left_of_merge i a b
contains-merged i false true a b c = contains-merge_set i b c
contains-merged i false false a b c = refl

pub merged-IsOnce :
    (here target : Bool) (in_target in_k in_job : List ℕ)
    → IsOnce in_k
    → IsOnce in_job
    → IsOnce (
        if here
        then left_of_merge in_target (if target then merge_set in_k in_job else in_k)
        else (if target then merge_set in_k in_job else in_k))
merged-IsOnce true true a b c once other =
    left_of_merge-IsOnce a (merge_set b c) (merge_set-IsOnce b c once other)
merged-IsOnce true false a b c once other = left_of_merge-IsOnce a b once
merged-IsOnce false true a b c once other = merge_set-IsOnce b c once other
merged-IsOnce false false a b c once other = once
