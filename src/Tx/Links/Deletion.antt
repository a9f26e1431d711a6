-- ===== src/Tx/Links/Deletion.antt =====
-- The deletion of a job takes all its requirements and those on it out of memory, and leaves no link
-- to what is gone.
use neo_init_ware.Common.{
  ℕ, ◌≡◌, ◌==◌, ◌∙◌, ap, subst, Bool, true, false, Option, none, some, List, [], ◌∷◌, refl,
  contains, ok, >>=-runs, Bool-cases, inl, inr, if◌then◌else◌, arith,
}
use neo_init_ware.Tx.Model.{Requirement, Transaction, modify_job, load_req}
use neo_init_ware.Tx.Delete.{erase_req_on, del_req, del_reqs_on}
use neo_init_ware.Tx.Links.{IsLinked, IsOnce, is_on, to_is, blank}
use neo_init_ware.Tx.Links.Unlink.{Unlinked, Unlinked-IsLinked, del_req-Unlinked, freed_req}

-- What is left when the requirements on `j` are gone.
pub record OnGone (j : ℕ) (tx after : Transaction) : Type 0 where
  pub linked : IsLinked after
  pub req : (i : ℕ) → after.req i ≡ (if is_on tx i j then none else tx.req i)
  pub blanks : (k : ℕ) → blank (after.job k) ≡ blank (tx.job k)

requirement_on :
    (r j : ℕ) (o : Option Requirement)
    → to_is j o ≡ true
    → (q : Requirement) × (o ≡ some q) × (q.to ≡ j)
requirement_on r j none h = cc
requirement_on r j (some q) h = (q, refl, ground arith)

still_on :
    (r i j : ℕ) (tx u : Transaction)
    → Unlinked r tx u
    → is_on u i j ≡ (if i == r then false else is_on tx i j)
still_on r i j tx u un = ap (to_is j) (un.req i) ∙ freed_req r i (tx.req i) (to_is j) refl

pub one_fewer :
    (r i : ℕ) (rs : List ℕ) (was is : Bool)
    → contains r rs ≡ false
    → was ≡ contains i (r ∷ rs)
    → is ≡ (if i == r then false else was)
    → is ≡ contains i rs
one_fewer r i rs was is new all now = elim (Bool-cases (i == r)) [
  | inl same ↦
      let i_is : r ≡ i = ground arith in
      let absent : contains i rs ≡ false = subst (λ x. contains x rs ≡ false) i_is new in
      ground arith
  | inr other ↦ ground arith
]

pub gone_too :
    (r i : ℕ) (was is : Bool) (o u after : Option Requirement)
    → ((i == r) ≡ true → was ≡ true)
    → is ≡ (if i == r then false else was)
    → u ≡ (if r == i then none else o)
    → after ≡ (if is then none else u)
    → after ≡ (if was then none else o)
gone_too r i was is o u after hit now freed ends = elim (Bool-cases (i == r)) [
  | inl same ↦
      let back : (r == i) ≡ true = ground arith in
      let u_is : u ≡ none = freed ∙ rw back refl in
      let is_false : is ≡ false = now ∙ rw same refl in
      ends ∙ rw is_false (u_is ∙ rw (hit same) refl)
  | inr other ↦
      let back : (r == i) ≡ false = ground arith in
      let u_is : u ≡ o = freed ∙ rw back refl in
      let is_was : is ≡ was = now ∙ rw other refl in ends ∙ rw (is_was, u_is) refl
]

pub contains-first : (i r : ℕ) (rs : List ℕ) → (i == r) ≡ true → contains i (r ∷ rs) ≡ true
contains-first i r rs same = rw same refl

-- The loop over the requirements on the job: `rs` are those in memory that are on it.
pub del_reqs_on-OnGone :
    (j : ℕ) (rs : List ℕ) (tx : Transaction)
    → IsLinked tx
    → IsOnce rs
    → ((i : ℕ) → is_on tx i j ≡ contains i rs)
    → (after : Transaction) × (del_reqs_on j rs tx ≡ ok after) × OnGone j tx after
unfolding del_reqs_on
del_reqs_on-OnGone j [] tx linked once all =
    (tx, refl, record { linked = linked; req = λ i. rw (all i) refl; blanks = λ k. refl })
del_reqs_on-OnGone j (r ∷ rs) tx linked (new, once) all =
    let same : (r == r) ≡ true = ground arith in
    let (q, at, to) = requirement_on r j (tx.req r) (all r ∙ contains-first r r rs same) in
    let (u, unlinks, un) = del_req-Unlinked r q tx linked at in
    let (after, runs, gone) =
      del_reqs_on-OnGone j rs u (Unlinked-IsLinked r tx u linked un) once
        (λ i. one_fewer r i rs (is_on tx i j) (is_on u i j) new (all i) (still_on r i j tx u un)) in
    let at_erased : load_req r (modify_job j (erase_req_on r) tx) ≡ ok q = rw (at, load_req) refl in
    let step : del_req q.from r (modify_job j (erase_req_on r) tx) ≡ ok u =
      subst (λ k. del_req q.from r (modify_job k (erase_req_on r) tx) ≡ ok u) to unlinks in
    (
      after,
      >>=-runs (load_req r (modify_job j (erase_req_on r) tx)) _ at_erased
          (>>=-runs (del_req q.from r (modify_job j (erase_req_on r) tx)) _ step runs),
      record {
        linked = gone.linked;
        req = λ i.
            gone_too r i (is_on tx i j) (is_on u i j) (tx.req i) (u.req i) (after.req i)
              (λ hit. all i ∙ contains-first i r rs hit) (still_on r i j tx u un) (un.req i)
              (gone.req i);
        blanks = λ k. gone.blanks k ∙ un.blanks k;
      },
    )
