-- ===== src/Tx/Links/Whole.antt =====
-- A generated transaction has links that agree.
use neo_init_ware.Common.{
  second_is, ℕ, zero, suc, ◌≡◌, subst, Bool, true, false, some, List, [], ◌∷◌, refl, Result, ok,
  ok-injective, >>=-eq-ok, Bool-cases, Option-cases, List-cases, inl, inr, if◌then◌else◌, length,
}
use neo_init_ware.Objects.{Graph}
use neo_init_ware.Tx.JobType.{JobType, merged_job_type}
use neo_init_ware.Tx.Model.{Job, Transaction, Gen, jobs_at, set_jobs, load_job}
use neo_init_ware.Tx.Submit.{job_submit}
use neo_init_ware.Tx.Submit.Whole.{enough_fuel, fresh}
use neo_init_ware.Tx.Delete.{get_del_list, delete_job, delete_jobs}
use neo_init_ware.Tx.Order.{verify_acyclic, keys}
use neo_init_ware.Tx.Generate.{
  merge_job_into, deletes_second, drop_one, merge_two, merge_first_two, merge_group, merge_groups,
  merge_jobs, new_transaction,
}
use neo_init_ware.Tx.Links.{IsLinked}
use neo_init_ware.Tx.Links.Grow.{empty_tx-IsSafe}
use neo_init_ware.Tx.Links.Submitted.{job_submit-Grows}
use neo_init_ware.Tx.Links.Deleted.{
  SameHeap-IsLinked, get_del_list-SameHeap, delete_jobs-IsLinked, delete_job-keeps_links,
}
use neo_init_ware.Tx.Links.Cycles.{verify_acyclic-IsLinked}
use neo_init_ware.Tx.Links.Merging.{merge_job_into-IsLinked}

-- The entries of the map play no part in the links.
set_jobs-IsLinked :
    (p : ℕ) (js : List ℕ) (tx : Transaction) → IsLinked tx → IsLinked (set_jobs p js tx)
set_jobs-IsLinked p js tx =
    SameHeap-IsLinked tx (set_jobs p js tx) (record { job = refl; req = refl })

drop_one-IsLinked :
    (j1 j2 : ℕ) (b1 b2 : Job) (tx : Transaction) (b : Bool) (t : Transaction)
    → drop_one j1 j2 b1 b2 tx ≡ ok (b, t)
    → IsLinked tx
    → IsLinked t
unfolding drop_one
drop_one-IsLinked j1 j2 b1 b2 tx b t run linked = elim (Option-cases (deletes_second b1 b2)) [
  | inl both ↦ subst IsLinked (second_is (rw (both, drop_one) at run)) linked
  | inr (second, one) ↦
      let ((l, u), lists, run1) =
        >>=-eq-ok (get_del_list (suc tx.next_job) (if second then j2 else j1) [] tx) _
          (rw (one, drop_one) at run) in
      let (v, deletes, gives) = >>=-eq-ok (delete_jobs l u) _ run1 in
      let same =
        get_del_list-SameHeap (suc tx.next_job) (if second then j2 else j1) [] tx l u lists in
      subst IsLinked (second_is gives)
        (delete_jobs-IsLinked l u v deletes (SameHeap-IsLinked tx u same linked))
]

merge_two-IsLinked :
    (p j1 j2 : ℕ) (rest : List ℕ) (tx : Transaction) (b : Bool) (t : Transaction)
    → merge_two p j1 j2 rest tx ≡ ok (b, t)
    → IsLinked tx
    → IsLinked t
unfolding merge_two
merge_two-IsLinked p j1 j2 rest tx b t run linked =
    let (u, merges, run1) = >>=-eq-ok (merge_job_into j1 j2 tx) _ run in
    let (v, deletes, gives) = >>=-eq-ok (delete_job j1 (set_jobs p (j2 ∷ rest) u)) _ run1 in
    let merged = merge_job_into-IsLinked j1 j2 tx u merges linked in
    subst IsLinked (second_is gives) (
      delete_job-keeps_links j1 (set_jobs p (j2 ∷ rest) u) v deletes
        (set_jobs-IsLinked p (j2 ∷ rest) u merged))

merge_first_two-IsLinked :
    (p j1 j2 : ℕ) (rest : List ℕ) (tx : Transaction) (b : Bool) (t : Transaction)
    → merge_first_two p j1 j2 rest tx ≡ ok (b, t)
    → IsLinked tx
    → IsLinked t
unfolding merge_first_two
merge_first_two-IsLinked p j1 j2 rest tx b t run linked =
    let (b1, read1, run1) = >>=-eq-ok (load_job j1 tx) _ run in
    let (b2, read2, run2) = >>=-eq-ok (load_job j2 tx) _ run1 in
    elim (Option-cases (merged_job_type b1.type b2.type)) [
      | inl unmergeable ↦ drop_one-IsLinked j1 j2 b1 b2 tx b t (rw unmergeable at run2) linked
      | inr (type, mergeable) ↦ merge_two-IsLinked p j1 j2 rest tx b t (rw mergeable at run2) linked
    ]

-- What follows a step of the loop over a list of jobs.
after_step :
    (fuel p : ℕ) (c : Bool) (u : Transaction) (b : Bool) (t : Transaction)
    → ((b : Bool) (t : Transaction) → merge_group fuel p u ≡ ok (b, t) → IsLinked t)
    → IsLinked u
    → ◌≡◌ {A = Result (Bool × Transaction)}
        (elim c [ true ↦ merge_group fuel p u | false ↦ ok (false, u) ])
        (ok (b, t))
    → IsLinked t
after_step fuel p true u b t later linked run = later b t run
after_step fuel p false u b t later linked run = subst IsLinked (second_is run) linked

merge_group-IsLinked :
    (fuel p : ℕ) (tx : Transaction) (b : Bool) (t : Transaction)
    → merge_group fuel p tx ≡ ok (b, t)
    → IsLinked tx
    → IsLinked t
unfolding merge_group
merge_group-IsLinked zero p tx b t run linked = cc
merge_group-IsLinked (suc fuel) p tx b t run linked = elim (List-cases (jobs_at p tx)) [
  | inl empty ↦ subst IsLinked (second_is (rw (empty, merge_group) at run)) linked
  | inr (j1, more, first) ↦ elim (List-cases more) [
    | inl one ↦
        subst IsLinked (second_is (rw (one, merge_group) at (rw (first, merge_group) at run)))
          linked
    | inr (j2, rest, second) ↦
        let ((c, u), step, later) =
          >>=-eq-ok (merge_first_two p j1 j2 rest tx) _
            (rw (second, merge_group) at (rw (first, merge_group) at run)) in
        let kept = merge_first_two-IsLinked p j1 j2 rest tx c u step linked in
        after_step fuel p c u b t (λ b t again. merge_group-IsLinked fuel p u b t again kept) kept
          later
  ]
]

merge_groups-IsLinked :
    (ps : List ℕ) (tx : Transaction) (b : Bool) (t : Transaction)
    → merge_groups ps tx ≡ ok (b, t)
    → IsLinked tx
    → IsLinked t
unfolding merge_groups
merge_groups-IsLinked [] tx b t run linked = subst IsLinked (second_is run) linked
merge_groups-IsLinked (p ∷ ps) tx b t run linked =
    let ((merged, u), one, later) =
      >>=-eq-ok (merge_group (suc (length (jobs_at p tx))) p tx) _ run in
    let kept = merge_group-IsLinked (suc (length (jobs_at p tx))) p tx merged u one linked in
    elim (Bool-cases merged) [
      | inl fine ↦ merge_groups-IsLinked ps u b t (rw fine at later) kept
      | inr stuck ↦ subst IsLinked (second_is (rw stuck at later)) kept
    ]

-- In a transaction that is generated, every requirement in memory is listed by just the job that it is
-- from and by just the job that it is on, nothing else is listed, and nothing is listed twice: no
-- link is dangling, whatever cycles were removed and jobs merged.
pub new_transaction-IsLinked :
    (p : ℕ) (op : JobType) (g : Graph) (made : Gen)
    → new_transaction p op g ≡ ok made
    → IsLinked made.tx
unfolding new_transaction merge_jobs
new_transaction-IsLinked p op g made run =
    let ((objective, s), submits, run1) =
      >>=-eq-ok (job_submit (enough_fuel g) p op true (fresh g)) _ run in
    let aimed = record s { tx = record s.tx { objective = some objective } } in
    let ((acyclic, s'), verifies, run2) = >>=-eq-ok (verify_acyclic aimed) _ run1 in
    let grown =
      (job_submit-Grows (enough_fuel g) p op true (fresh g) s objective submits
        empty_tx-IsSafe).0 in
    let started : IsLinked aimed.tx =
      SameHeap-IsLinked s.tx aimed.tx (record { job = refl; req = refl }) grown.safe.linked in
    let verified = verify_acyclic-IsLinked aimed acyclic s' verifies started in
    elim (Bool-cases acyclic) [
      | inr cyclic ↦ cc (rw cyclic at run2)
      | inl fine ↦
          let ((merged, u), merges, run3) =
            >>=-eq-ok (merge_groups (keys s'.tx.jobs) s'.tx) _ (rw fine at run2) in
          let kept = merge_groups-IsLinked (keys s'.tx.jobs) s'.tx merged u merges verified in
          elim (Bool-cases merged) [
            | inl all ↦ subst (λ x. IsLinked x.tx) (ok-injective (rw all at run3)) kept
            | inr unmergeable ↦ cc (rw unmergeable at run3)
          ]
    ]
