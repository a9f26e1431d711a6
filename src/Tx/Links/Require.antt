-- ===== src/Tx/Links/Require.antt =====
-- A new requirement between two jobs keeps the links.
use neo_init_ware.Common.{
  ℕ, ◌≡◌, ◌==◌, ◌∙◌, ap, sym, subst, Bool, true, false, Option, none, some, List, [], ◌∷◌, refl,
  contains, Bool-cases, inl, inr, if◌then◌else◌, arith,
}
use neo_init_ware.Tx.Model.{Job, Requirement, Transaction, add_req}
use neo_init_ware.Tx.Links.{IsOnce, reqs_of, on_of, reqs_in, on_in, is_from, is_on, from_is, to_is}
use neo_init_ware.Tx.Links.Grow.{IsSafe, IsLiveJob, Grows}

-- A job as `add_req` leaves it, where the two tests tell whether the requirement is from it or on it.
abbrev taken : (r : ℕ) (from on : Bool) → Option Job → Option Job
taken r from on o =
    let first =
      if from
      then (elim o [ none ↦ none | some b ↦ some (record b { reqs = r ∷ b.reqs }) ])
      else o in
    if on
    then (elim first [ none ↦ none | some b ↦ some (record b { reqs_on = r ∷ b.reqs_on }) ])
    else first

taken-reqs :
    (r : ℕ) (from on : Bool) (o : Option Job) (b : Job)
    → o ≡ some b
    → reqs_in (taken r from on o) ≡ (if from then r ∷ reqs_in o else reqs_in o)
taken-reqs r from on none b at = cc
taken-reqs r true true (some b) c at = refl
taken-reqs r true false (some b) c at = refl
taken-reqs r false true (some b) c at = refl
taken-reqs r false false (some b) c at = refl

taken-on :
    (r : ℕ) (from on : Bool) (o : Option Job) (b : Job)
    → o ≡ some b
    → on_in (taken r from on o) ≡ (if on then r ∷ on_in o else on_in o)
taken-on r from on none b at = cc
taken-on r true true (some b) c at = refl
taken-on r true false (some b) c at = refl
taken-on r false true (some b) c at = refl
taken-on r false false (some b) c at = refl

taken-live :
    (r : ℕ) (from on : Bool) (o : Option Job) (b : Job)
    → o ≡ some b
    → (c : Job) × (taken r from on o ≡ some c)
taken-live r from on none b at = cc
taken-live r true true (some b) c at = (_, refl)
taken-live r true false (some b) c at = (_, refl)
taken-live r false true (some b) c at = (_, refl)
taken-live r false false (some b) c at = (_, refl)

taken-none : (r : ℕ) (from on : Bool) (o : Option Job) → o ≡ none → taken r from on o ≡ none
taken-none r true true none at = refl
taken-none r true false none at = refl
taken-none r false true none at = refl
taken-none r false false none at = refl
taken-none r from on (some b) at = cc

-- The lists of a job that is not in memory are empty, whatever they are said to take.
taken_list :
    (get : Option Job → List ℕ) (r : ℕ) (from on mine : Bool) (o : Option Job)
    → get none ≡ []
    → ((b : Job) → o ≡ some b → get (taken r from on o) ≡ (if mine then r ∷ get o else get o))
    → (mine ≡ true → (b : Job) × (o ≡ some b))
    → get (taken r from on o) ≡ (if mine then r ∷ get o else get o)
taken_list get r from on mine (some b) nothing there live = there b refl
taken_list get r from on true none nothing there live = let (b, at) = live refl in cc
taken_list get r from on false none nothing there live = ap get (taken-none r from on none refl)

-- A list that took the new requirement agrees with the requirements again.
took :
    (r i : ℕ) (mine was : Bool) (xs : List ℕ)
    → contains r xs ≡ false
    → contains i xs ≡ was
    → contains i (if mine then r ∷ xs else xs) ≡ (if r == i then mine else was)
took r i true was xs new agree = elim (Bool-cases (r == i)) [
  | inl same ↦ let back : (i == r) ≡ true = ground arith in rw (same, back) refl
  | inr other ↦ let back : (i == r) ≡ false = ground arith in rw (other, back) agree
]
took r i false was xs new agree = elim (Bool-cases (r == i)) [
  | inl same ↦
      let r_is : r ≡ i = ground arith in rw same (subst (λ x. contains x xs ≡ false) r_is new)
  | inr other ↦ rw other agree
]

took-IsOnce :
    (r : ℕ) (mine : Bool) (xs : List ℕ)
    → contains r xs ≡ false
    → IsOnce xs
    → IsOnce (if mine then r ∷ xs else xs)
took-IsOnce r true xs new once = (new, once)
took-IsOnce r false xs new once = once

added_test :
    (test : Option Requirement → Bool) (r i : ℕ) (q : Requirement) (o : Option Requirement)
    → test (if r == i then some q else o) ≡ (if r == i then test (some q) else test o)
added_test test r i q o = elim (Bool-cases (r == i)) [
  | inl same ↦ rw same refl
  | inr other ↦ rw other refl
]

module _ (j other : ℕ) (required goal : Bool) (tx : Transaction) (safe : IsSafe tx)
    (j_live : IsLiveJob j tx) (other_live : IsLiveJob other tx) where
  abbrev r : ℕ
  r = tx.next_req

  abbrev made : Requirement
  made = record { from = j; to = other; required = required; goal_required = goal }

  new_from : (k : ℕ) → contains r (reqs_of tx k) ≡ false
  new_from k = safe.linked.from k r ∙ ap (from_is k) (safe.new_reqs r (omega arith))

  new_on : (k : ℕ) → contains r (on_of tx k) ≡ false
  new_on k = safe.linked.on k r ∙ ap (to_is k) (safe.new_reqs r (omega arith))

  at_live : (x k : ℕ) → IsLiveJob x tx → (x == k) ≡ true → IsLiveJob k tx
  at_live x k live same = subst (λ y. IsLiveJob y tx) (ground arith) live

  reqs_after :
      (k : ℕ)
      → reqs_of (add_req j other required goal tx) k
        ≡ (if j == k then r ∷ reqs_of tx k else reqs_of tx k)
  unfolding add_req
  reqs_after k =
      taken_list reqs_in r (j == k) (other == k) (j == k) (tx.job k) refl
        (λ b at. taken-reqs r (j == k) (other == k) (tx.job k) b at) (at_live j k j_live)

  on_after :
      (k : ℕ)
      → on_of (add_req j other required goal tx) k
        ≡ (if other == k then r ∷ on_of tx k else on_of tx k)
  unfolding add_req
  on_after k =
      taken_list on_in r (j == k) (other == k) (other == k) (tx.job k) refl
        (λ b at. taken-on r (j == k) (other == k) (tx.job k) b at) (at_live other k other_live)

  pub add_req-Grows : Grows tx (add_req j other required goal tx)
  unfolding add_req
  add_req-Grows = record {
    safe = record {
      linked = record {
        from = λ k i.
            ap (contains i) (reqs_after k)
            ∙ took r i (j == k) (is_from tx i k) (reqs_of tx k) (new_from k) (safe.linked.from k i)
            ∙ sym (added_test (from_is k) r i made (tx.req i));
        on = λ k i.
            ap (contains i) (on_after k)
            ∙ took r i (other == k) (is_on tx i k) (on_of tx k) (new_on k) (safe.linked.on k i)
            ∙ sym (added_test (to_is k) r i made (tx.req i));
        once = λ k.
            subst IsOnce (sym (reqs_after k))
              (took-IsOnce r (j == k) (reqs_of tx k) (new_from k) (safe.linked.once k));
        once_on = λ k.
            subst IsOnce (sym (on_after k))
              (took-IsOnce r (other == k) (on_of tx k) (new_on k) (safe.linked.once_on k));
      };
      new_jobs = λ k above. taken-none r (j == k) (other == k) (tx.job k) (safe.new_jobs k above);
      new_reqs = λ i above.
          let differs : (r == i) ≡ false = ground arith in
          rw differs (safe.new_reqs i (omega (arith, above)));
    };
    lives = λ k (b, at). taken-live r (j == k) (other == k) (tx.job k) b at;
  }
