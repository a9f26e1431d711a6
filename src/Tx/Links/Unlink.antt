-- ===== src/Tx/Links/Unlink.antt =====
-- A requirement is taken out of memory and out of the lists that it stands in.
use neo_init_ware.Common.{
  ℕ, ◌≡◌, ◌==◌, ◌∙◌, ap, sym, subst, Bool, true, false, Option, none, some, List, refl, contains,
  contains-erase, erase, update, ok, >>=-runs, Bool-cases, inl, inr, if◌then◌else◌, arith,
}
use neo_init_ware.Tx.Model.{Job, Requirement, Transaction, modify_job, load_job, load_req}
use neo_init_ware.Tx.Delete.{erase_req, erase_req_on, delete_req, del_found_req, del_req}
use neo_init_ware.Tx.Links.{
  holds_on, modify_job-live, IsLinked, IsOnce, reqs_of, on_of, reqs_in, from_is, to_is, blank,
  erase-IsOnce, reqs_of-erase_req, on_of-erase_req, reqs_of-erase_req_on, on_of-erase_req_on,
  blank-modify_job,
}

-- The requirement is gone, and nothing else is.
pub record Unlinked (r : ℕ) (tx after : Transaction) : Type 0 where
  pub req : (i : ℕ) → after.req i ≡ (if r == i then none else tx.req i)
  pub reqs :
      (k i : ℕ)
      → contains i (reqs_of after k) ≡ (if i == r then false else contains i (reqs_of tx k))
  pub reqs_on :
      (k i : ℕ) → contains i (on_of after k) ≡ (if i == r then false else contains i (on_of tx k))
  pub once : (k : ℕ) → IsOnce (reqs_of after k)
  pub once_on : (k : ℕ) → IsOnce (on_of after k)
  pub blanks : (k : ℕ) → blank (after.job k) ≡ blank (tx.job k)

pub freed_req :
    (r i : ℕ) (o : Option Requirement) (test : Option Requirement → Bool)
    → test none ≡ false
    → test (if r == i then none else o) ≡ (if i == r then false else test o)
freed_req r i o test none_is = elim (Bool-cases (r == i)) [
  | inl same ↦ let back : (i == r) ≡ true = ground arith in rw (same, back) none_is
  | inr other ↦ let back : (i == r) ≡ false = ground arith in rw (other, back) refl
]

pub Unlinked-IsLinked :
    (r : ℕ) (tx after : Transaction) → IsLinked tx → Unlinked r tx after → IsLinked after
Unlinked-IsLinked r tx after linked u = record {
  from = λ k i.
      u.reqs k i
      ∙ ap (λ b. if i == r then false else b) (linked.from k i)
      ∙ sym (ap (from_is k) (u.req i) ∙ freed_req r i (tx.req i) (from_is k) refl);
  on = λ k i.
      u.reqs_on k i
      ∙ ap (λ b. if i == r then false else b) (linked.on k i)
      ∙ sym (ap (to_is k) (u.req i) ∙ freed_req r i (tx.req i) (to_is k) refl);
  once = u.once;
  once_on = u.once_on;
}

-- An erased requirement, where it stood in one list only.
pub cut :
    (r i : ℕ) (here : Bool) (xs : List ℕ)
    → (here ≡ false → contains r xs ≡ false)
    → contains i (if here then erase r xs else xs) ≡ (if i == r then false else contains i xs)
cut r i true xs absent = contains-erase i r xs
cut r i false xs absent = elim (Bool-cases (i == r)) [
  | inl same ↦ let i_is : i ≡ r = ground arith in rw (same, i_is) (absent refl)
  | inr other ↦ rw other refl
]

pub cut-IsOnce :
    (r : ℕ) (here : Bool) (xs : List ℕ) → IsOnce xs → IsOnce (if here then erase r xs else xs)
cut-IsOnce r true xs once = erase-IsOnce r xs once
cut-IsOnce r false xs once = once

module _ (r : ℕ) (q : Requirement) (tx : Transaction) (linked : IsLinked tx)
    (at : tx.req r ≡ some q) where
  -- The lists without the requirement, erased as often as the destructors erase it.
  abbrev erased : Transaction
  erased = modify_job q.to (erase_req_on r) tx

  abbrev unlisted : Transaction
  unlisted =
      modify_job q.to (erase_req_on r)
        (modify_job q.from (erase_req r) (modify_job q.to (erase_req_on r) erased))

  abbrev unlinked : Transaction
  unlinked = record unlisted { req = update tx.req r none }

  unlisted-reqs :
      (k : ℕ) → reqs_of unlisted k ≡ (if q.from == k then erase r (reqs_of tx k) else reqs_of tx k)
  unlisted-reqs k =
      reqs_of-erase_req_on q.to r k
        (modify_job q.from (erase_req r) (modify_job q.to (erase_req_on r) erased))
      ∙ reqs_of-erase_req q.from r k (modify_job q.to (erase_req_on r) erased)
      ∙ ap (λ xs. if q.from == k then erase r xs else xs)
          (reqs_of-erase_req_on q.to r k erased ∙ reqs_of-erase_req_on q.to r k tx)

  abbrev cut_on : (k : ℕ) → List ℕ → List ℕ
  cut_on k xs = if q.to == k then erase r xs else xs

  unlisted-on : (k : ℕ) → on_of unlisted k ≡ cut_on k (cut_on k (cut_on k (on_of tx k)))
  unlisted-on k =
      on_of-erase_req_on q.to r k
        (modify_job q.from (erase_req r) (modify_job q.to (erase_req_on r) erased))
      ∙ ap (cut_on k) (
          on_of-erase_req q.from r k (modify_job q.to (erase_req_on r) erased)
          ∙ on_of-erase_req_on q.to r k erased
          ∙ ap (cut_on k) (on_of-erase_req_on q.to r k tx))

  absent_from : (k : ℕ) → (q.from == k) ≡ false → contains r (reqs_of tx k) ≡ false
  absent_from k other = linked.from k r ∙ ap (from_is k) at ∙ other

  absent_on : (k : ℕ) → (q.to == k) ≡ false → contains r (on_of tx k) ≡ false
  absent_on k other = linked.on k r ∙ ap (to_is k) at ∙ other

  cut_thrice :
      (k i : ℕ) (xs : List ℕ)
      → ((q.to == k) ≡ false → contains r xs ≡ false)
      → contains i (cut_on k (cut_on k (cut_on k xs))) ≡ (if i == r then false else contains i xs)
  cut_thrice k i xs absent = ground (
    arith,
    contains-erase i r xs,
    contains-erase i r (erase r xs),
    contains-erase i r (erase r (erase r xs)),
    cut r i (q.to == k) xs absent,
  )

  blanks : (k : ℕ) → blank (unlisted.job k) ≡ blank (tx.job k)
  blanks k =
      blank-modify_job q.to (erase_req_on r) k
        (modify_job q.from (erase_req r) (modify_job q.to (erase_req_on r) erased)) (λ b. refl)
      ∙ blank-modify_job q.from (erase_req r) k (modify_job q.to (erase_req_on r) erased)
          (λ b. refl)
      ∙ blank-modify_job q.to (erase_req_on r) k erased (λ b. refl)
      ∙ blank-modify_job q.to (erase_req_on r) k tx (λ b. refl)

  unlinked-Unlinked : Unlinked r tx unlinked
  unlinked-Unlinked = record {
    req = λ i. refl;
    reqs = λ k i.
        ap (contains i) (unlisted-reqs k) ∙ cut r i (q.from == k) (reqs_of tx k) (absent_from k);
    reqs_on = λ k i. ap (contains i) (unlisted-on k) ∙ cut_thrice k i (on_of tx k) (absent_on k);
    once = λ k.
        subst IsOnce (sym (unlisted-reqs k))
          (cut-IsOnce r (q.from == k) (reqs_of tx k) (linked.once k));
    once_on = λ k. subst IsOnce (sym (unlisted-on k)) (
        cut-IsOnce r (q.to == k) (cut_on k (cut_on k (on_of tx k))) (
          cut-IsOnce r (q.to == k) (cut_on k (on_of tx k))
            (cut-IsOnce r (q.to == k) (on_of tx k) (linked.once_on k))));
    blanks = blanks;
  }

  load_req-at : (t : Transaction) → t.req r ≡ some q → load_req r t ≡ ok q
  load_req-at t at_t = rw (at_t, load_req) refl

  holder :
      (o : Option Job)
      → contains r (reqs_in o) ≡ true
      → (b : Job) × (o ≡ some b) × (contains r b.reqs ≡ true)
  holder none h = cc
  holder (some b) h = (b, refl, h)

  del_found_req-unlinks : del_found_req q.from r erased ≡ ok unlinked
  unfolding del_found_req delete_req
  del_found_req-unlinks =
      let itself : (q.to == q.to) ≡ true = ground arith in
      let (b, live) = holds_on r (tx.job q.to) (linked.on q.to r ∙ ap (to_is q.to) at ∙ itself) in
      let once_more = modify_job q.to (erase_req_on r) erased in
      let last = modify_job q.from (erase_req r) once_more in
      let (c, c_live) = modify_job-live q.to (erase_req_on r) q.to tx b live in
      let (d, d_live) = modify_job-live q.to (erase_req_on r) q.to erased c c_live in
      let (e, e_live) = modify_job-live q.from (erase_req r) q.to once_more d d_live in
      >>=-runs (load_req r erased) _ (load_req-at erased at) (
        >>=-runs (load_job q.to erased) _ {x = c} (rw (c_live, load_job) refl) (
          >>=-runs (load_req r last) _ (load_req-at last at)
            (>>=-runs (load_job q.to last) _ {x = e} (rw (e_live, load_job) refl) refl)))

  del_req-unlinks : del_req q.from r erased ≡ ok unlinked
  unfolding del_req
  del_req-unlinks =
      let same : (q.from == q.from) ≡ true = ground arith in
      let stands : contains r (reqs_of erased q.from) ≡ true =
        ap (contains r) (reqs_of-erase_req_on q.to r q.from tx)
        ∙ linked.from q.from r
        ∙ ap (from_is q.from) at
        ∙ same in
      let (b, b_at, listed) = holder (erased.job q.from) stands in
      >>=-runs (load_job q.from erased) _ {x = b} (rw (b_at, load_job) refl)
        (rw (listed, del_req) del_found_req-unlinks)

-- What the loop of `~Job` does for one requirement on the job.
pub del_req-Unlinked :
    (r : ℕ) (q : Requirement) (tx : Transaction)
    → IsLinked tx
    → tx.req r ≡ some q
    → (after : Transaction) × (del_req q.from r (modify_job q.to (erase_req_on r) tx) ≡ ok after)
      × Unlinked r tx after
del_req-Unlinked r q tx linked at = (
  unlinked r q tx linked at,
  del_req-unlinks r q tx linked at,
  unlinked-Unlinked r q tx linked at,
)
