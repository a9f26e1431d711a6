-- ===== src/Tx/Generate.antt =====
-- Merging of an object's jobs and the constructor of a transaction, in
-- cmd/schedulerd/scheduler/txgen.cc.
use neo_init_ware.Common.{
  ℕ, zero, suc, ◌==◌, ◌>>=◌, ◌&&◌, not, Bool, true, false, Option, none, some, List, [], ◌∷◌,
  Result, ok, err, thrown, out_of_fuel, contains, length, if◌then◌else◌,
}
use neo_init_ware.Objects.{Graph}
use neo_init_ware.Tx.JobType.{JobType, stop, same_type, merged_job_type}
use neo_init_ware.Tx.Model.{
  Job, Requirement, Transaction, Gen, jobs_at, set_jobs, modify_job, load_job, load_req,
}
use neo_init_ware.Tx.Submit.{job_submit}
use neo_init_ware.Tx.Submit.Whole.{enough_fuel, fresh}
use neo_init_ware.Tx.Delete.{get_del_list, delete_job, delete_jobs}
use neo_init_ware.Tx.Order.{verify_acyclic, keys}

abbrev pub modify_req : ℕ → (Requirement → Requirement) → Transaction → Transaction
modify_req r f tx = record tx {
  req = λ k. if r == k then (elim (tx.req k) [ none ↦ none | some q ↦ some (f q) ]) else tx.req k;
}

-- `std::unordered_set::merge`: what the target has already stays in the source.
abbrev pub merge_set : (into from : List ℕ) → List ℕ
merge_set into [] = into
merge_set into (r ∷ rs) = if contains r into then merge_set into rs else r ∷ merge_set into rs

abbrev pub left_of_merge : (into from : List ℕ) → List ℕ
left_of_merge into [] = []
left_of_merge into (r ∷ rs) =
    if contains r into then r ∷ left_of_merge into rs else left_of_merge into rs

unfoldable pub redirect_from : ℕ → List ℕ → Transaction → Transaction
redirect_from into [] tx = tx
redirect_from into (r ∷ rs) tx =
    redirect_from into rs (modify_req r (λ q. record q { from = into }) tx)

unfoldable pub redirect_to : ℕ → List ℕ → Transaction → Transaction
redirect_to into [] tx = tx
redirect_to into (r ∷ rs) tx = redirect_to into rs (modify_req r (λ q. record q { to = into }) tx)

-- What the loops of `merge_job_into` write to must be live.
unfoldable pub load_reqs : List ℕ → Transaction → Result (Unit {0})
load_reqs [] tx = ok tt
load_reqs (r ∷ rs) tx = do _ ← load_req r tx; load_reqs rs tx

-- `Transaction::merge_job_into`
unfoldable pub merge_job_into : (job into : ℕ) → Transaction → Result Transaction
unfolding redirect_from redirect_to load_reqs
merge_job_into job into tx = do
  b ← load_job job tx
  c ← load_job into tx
  _ ← load_reqs b.reqs tx
  _ ← load_reqs b.reqs_on tx
  let redirected = redirect_to into b.reqs_on (redirect_from into b.reqs tx)
  let filled =
      modify_job into
        (λ x. record x {
          reqs = merge_set x.reqs b.reqs;
          reqs_on = merge_set x.reqs_on b.reqs_on;
          goal_required = if b.goal_required then true else x.goal_required;
        })
        redirected
  ok (
      modify_job job
        (λ x. record x {
          reqs = left_of_merge c.reqs x.reqs;
          reqs_on = left_of_merge c.reqs_on x.reqs_on;
        })
        filled)

-- Whether the second of two unmergeable jobs is the one to delete. `none`: the goal needs both.
unfoldable pub deletes_second : (b1 b2 : Job) → Option Bool
deletes_second b1 b2 =
    if b1.goal_required && b2.goal_required
    then none
    else if not b1.goal_required && not b2.goal_required
    then some (same_type b2.type stop)
    else some (not b2.goal_required)

-- The branch of `merge_jobs` for two jobs that cannot be merged: one of them is deleted.
unfoldable pub drop_one : (j1 j2 : ℕ) → Job → Job → Transaction → Result (Bool × Transaction)
unfolding deletes_second get_del_list delete_jobs
drop_one j1 j2 b1 b2 tx = elim (deletes_second b1 b2) [
  | none ↦ ok (false, tx)
  | some second ↦ do
    (dellist, tx') ← get_del_list (suc tx.next_job) (if second then j2 else j1) [] tx
    tx2 ← delete_jobs dellist tx'
    ok (true, tx2)
]

-- The other branch: the first job is merged into the second and leaves the list. The merged type is
-- printed, and the second job keeps its own.
unfoldable pub merge_two : (p j1 j2 : ℕ) (rest : List ℕ) → Transaction → Result (Bool × Transaction)
unfolding merge_job_into delete_job
merge_two p j1 j2 rest tx = do
  tx1 ← merge_job_into j1 j2 tx
  tx2 ← delete_job j1 (set_jobs p (j2 ∷ rest) tx1)
  ok (true, tx2)

-- The body of the loop of `merge_jobs(list)`.
unfoldable pub merge_first_two :
    (p j1 j2 : ℕ) (rest : List ℕ) → Transaction → Result (Bool × Transaction)
unfolding drop_one merge_two
merge_first_two p j1 j2 rest tx = do
  b1 ← load_job j1 tx
  b2 ← load_job j2 tx
  elim (merged_job_type b1.type b2.type) [
    | none ↦ drop_one j1 j2 b1 b2 tx
    | some _ ↦ merge_two p j1 j2 rest tx
  ]

-- `Transaction::merge_jobs(list)`, with the test of its caller that the list has two jobs or more.
unfoldable pub merge_group : ℕ → ℕ → Transaction → Result (Bool × Transaction)
unfolding merge_first_two
merge_group zero p tx = err out_of_fuel
merge_group (suc fuel) p tx = elim (jobs_at p tx) [
  | [] ↦ ok (true, tx)
  | j1 ∷ more ↦ elim more [
    | [] ↦ ok (true, tx)
    | j2 ∷ rest ↦ merge_first_two p j1 j2 rest tx >>= λ step. elim step.0 [
      | true ↦ merge_group fuel p step.1
      | false ↦ ok (false, step.1)
    ]
  ]
]

-- `Transaction::merge_jobs()`
unfoldable pub merge_groups : List ℕ → Transaction → Result (Bool × Transaction)
unfolding merge_group
merge_groups [] tx = ok (true, tx)
merge_groups (p ∷ ps) tx = do
  (merged, tx') ← merge_group (suc (length (jobs_at p tx))) p tx
  let rest = merge_groups ps tx'
  if merged then rest else ok (false, tx')

unfoldable pub merge_jobs : Transaction → Result (Bool × Transaction)
unfolding merge_groups keys
merge_jobs tx = merge_groups (keys tx.jobs) tx

-- The constructor of `Transaction`.
unfoldable pub new_transaction : ℕ → JobType → Graph → Result Gen
unfolding job_submit enough_fuel verify_acyclic merge_jobs
new_transaction p op g = do
  (objective, s) ← job_submit (enough_fuel g) p op true (fresh g)
  let aimed = record s { tx = record s.tx { objective = some objective } }
  (acyclic, s') ← verify_acyclic aimed
  let cyclical : Result Gen = err (thrown "Transaction is unresolveably cyclical")
  let merged = merge_jobs s'.tx >>= λ r.
      if r.0
      then ok (record s' { tx = r.1 })
      else err (thrown "Transaction contains unmergeable jobs")
  if acyclic then merged else cyclical
