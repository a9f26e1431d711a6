-- ===== src/Tx/Single/Merges.antt =====
-- `merge_jobs` leaves an object at most one job.
use neo_init_ware.Common.{
  second_is, ℕ, zero, suc, ◌≤◌, ◌≡◌, ◌==◌, ◌∙◌, ap, sym, subst, Bool, true, false, none, some, List,
  [], ◌∷◌, refl, contains, length, find, Result, ok, ok-injective, >>=-eq-ok, Bool-cases,
  Option-cases, List-cases, inl, inr, if◌then◌else◌, arith,
}
use neo_init_ware.Objects.{Graph}
use neo_init_ware.Tx.JobType.{JobType, merged_job_type}
use neo_init_ware.Tx.Model.{Job, Transaction, Gen, jobs_at, set_jobs, load_job}
use neo_init_ware.Tx.Submit.{job_submit}
use neo_init_ware.Tx.Submit.Whole.{enough_fuel, fresh}
use neo_init_ware.Tx.Delete.{get_del_list, delete_job, delete_jobs}
use neo_init_ware.Tx.Order.{verify_acyclic, keys}
use neo_init_ware.Tx.Generate.{
  load_reqs, modify_req, redirect_from, redirect_to, merge_job_into, deletes_second, drop_one,
  merge_two, merge_first_two, merge_group, merge_groups, merge_jobs, new_transaction,
}
use neo_init_ware.Tx.Single.Lists.{
  Shrinks, Shrinks-then, Shrinks-self, same_map-Shrinks, set_jobs-Shrinks, delete_job-jobs,
  delete_jobs-jobs, get_del_list-Shrinks, list_of,
}

redirect_from-jobs :
    (into : ℕ) (rs : List ℕ) (tx : Transaction) → (redirect_from into rs tx).jobs ≡ tx.jobs
unfolding redirect_from
redirect_from-jobs into [] tx = refl
redirect_from-jobs into (r ∷ rs) tx =
    redirect_from-jobs into rs (modify_req r (λ q. record q { from = into }) tx)

redirect_to-jobs :
    (into : ℕ) (rs : List ℕ) (tx : Transaction) → (redirect_to into rs tx).jobs ≡ tx.jobs
unfolding redirect_to
redirect_to-jobs into [] tx = refl
redirect_to-jobs into (r ∷ rs) tx =
    redirect_to-jobs into rs (modify_req r (λ q. record q { to = into }) tx)

merge_job_into-jobs :
    (job into : ℕ) (tx t : Transaction) → merge_job_into job into tx ≡ ok t → t.jobs ≡ tx.jobs
unfolding merge_job_into
merge_job_into-jobs job into tx t run =
    let (b, read, run1) = >>=-eq-ok (load_job job tx) _ run in
    let (c, read_into, run2) = >>=-eq-ok (load_job into tx) _ run1 in
    let (_, live_from, run3) = >>=-eq-ok (load_reqs b.reqs tx) _ run2 in
    let (_, live_to, gives) = >>=-eq-ok (load_reqs b.reqs_on tx) _ run3 in
    sym (ap (λ x. x.jobs) (ok-injective gives))
    ∙ redirect_to-jobs into b.reqs_on (redirect_from into b.reqs tx)
    ∙ redirect_from-jobs into b.reqs tx

drop_one-Shrinks :
    (j1 j2 : ℕ) (b1 b2 : Job) (tx : Transaction) (b : Bool) (t : Transaction)
    → drop_one j1 j2 b1 b2 tx ≡ ok (b, t)
    → Shrinks tx t
unfolding drop_one
drop_one-Shrinks j1 j2 b1 b2 tx b t run = elim (Option-cases (deletes_second b1 b2)) [
  | inl both ↦ subst (Shrinks tx) (second_is (rw (both, drop_one) at run)) (Shrinks-self tx)
  | inr (second, one) ↦
      let ((l, u), lists, run1) =
        >>=-eq-ok (get_del_list (suc tx.next_job) (if second then j2 else j1) [] tx) _
          (rw (one, drop_one) at run) in
      let (v, deletes, gives) = >>=-eq-ok (delete_jobs l u) _ run1 in
      let first =
        get_del_list-Shrinks (suc tx.next_job) (if second then j2 else j1) [] tx l u lists in
      subst (Shrinks tx) (second_is gives)
        (Shrinks-then first (same_map-Shrinks u v (delete_jobs-jobs l u v deletes)))
]

merge_two-Shrinks :
    (p j1 j2 : ℕ) (rest : List ℕ) (tx : Transaction) (b : Bool) (t : Transaction)
    → jobs_at p tx ≡ j1 ∷ j2 ∷ rest
    → merge_two p j1 j2 rest tx ≡ ok (b, t)
    → Shrinks tx t
unfolding merge_two
merge_two-Shrinks p j1 j2 rest tx b t listed run =
    let (u, merges, run1) = >>=-eq-ok (merge_job_into j1 j2 tx) _ run in
    let (v, deletes, gives) = >>=-eq-ok (delete_job j1 (set_jobs p (j2 ∷ rest) u)) _ run1 in
    let first = same_map-Shrinks tx u (merge_job_into-jobs j1 j2 tx u merges) in
    let was : length (jobs_at p tx) ≡ suc (suc (length rest)) = ap length listed in
    let is : length (jobs_at p u) ≡ length (jobs_at p tx) =
      ap (λ m. length (jobs_at p (record tx { jobs = m })))
        (merge_job_into-jobs j1 j2 tx u merges) in
    let second = set_jobs-Shrinks p (j2 ∷ rest) u (omega (arith, was, is)) in
    let third =
      same_map-Shrinks (set_jobs p (j2 ∷ rest) u) v
        (delete_job-jobs j1 (set_jobs p (j2 ∷ rest) u) v deletes) in
    subst (Shrinks tx) (second_is gives) (Shrinks-then first (Shrinks-then second third))

merge_first_two-Shrinks :
    (p j1 j2 : ℕ) (rest : List ℕ) (tx : Transaction) (b : Bool) (t : Transaction)
    → jobs_at p tx ≡ j1 ∷ j2 ∷ rest
    → merge_first_two p j1 j2 rest tx ≡ ok (b, t)
    → Shrinks tx t
unfolding merge_first_two
merge_first_two-Shrinks p j1 j2 rest tx b t listed run =
    let (b1, read1, run1) = >>=-eq-ok (load_job j1 tx) _ run in
    let (b2, read2, run2) = >>=-eq-ok (load_job j2 tx) _ run1 in
    elim (Option-cases (merged_job_type b1.type b2.type)) [
      | inl unmergeable ↦ drop_one-Shrinks j1 j2 b1 b2 tx b t (rw unmergeable at run2)
      | inr (type, mergeable) ↦ merge_two-Shrinks p j1 j2 rest tx b t listed (rw mergeable at run2)
    ]

-- The lists have not grown, and the object has at most one job.
record Single (p : ℕ) (tx t : Transaction) : Type 0 where
  pub shrinks : Shrinks tx t
  pub single : length (jobs_at p t) ≤ 1

after_step :
    (fuel p : ℕ) (c : Bool) (tx u t : Transaction)
    → Shrinks tx u
    → ((t : Transaction) → merge_group fuel p u ≡ ok (true, t) → Single p u t)
    → ◌≡◌ {A = Result (Bool × Transaction)}
        (elim c [ true ↦ merge_group fuel p u | false ↦ ok (false, u) ])
        (ok (true, t))
    → Single p tx t
after_step fuel p true tx u t first later run =
    let r = later t run in record { shrinks = Shrinks-then first r.shrinks; single = r.single }
after_step fuel p false tx u t first later run = cc

merge_group-Single :
    (fuel p : ℕ) (tx t : Transaction) → merge_group fuel p tx ≡ ok (true, t) → Single p tx t
unfolding merge_group
merge_group-Single zero p tx t run = cc
merge_group-Single (suc fuel) p tx t run = elim (List-cases (jobs_at p tx)) [
  | inl empty ↦
      let few : length (jobs_at p tx) ≡ 0 = ap length empty in
      subst (Single p tx) (second_is (rw (empty, merge_group) at run))
        (record { shrinks = Shrinks-self tx; single = omega (arith, few) })
  | inr (j1, more, first) ↦ elim (List-cases more) [
    | inl one ↦
        let few : length (jobs_at p tx) ≡ 1 = ap length (first ∙ ap (λ xs. j1 ∷ xs) one) in
        subst (Single p tx) (second_is (rw (one, merge_group) at (rw (first, merge_group) at run)))
          (record { shrinks = Shrinks-self tx; single = omega (arith, few) })
    | inr (j2, rest, second) ↦
        let ((c, u), step, later) =
          >>=-eq-ok (merge_first_two p j1 j2 rest tx) _
            (rw (second, merge_group) at (rw (first, merge_group) at run)) in
        let listed = first ∙ ap (λ xs. j1 ∷ xs) second in
        after_step fuel p c tx u t (merge_first_two-Shrinks p j1 j2 rest tx c u listed step)
          (λ t again. merge_group-Single fuel p u t again) later
  ]
]

merge_groups-Single :
    (ps : List ℕ) (tx t : Transaction)
    → merge_groups ps tx ≡ ok (true, t)
    → Shrinks tx t × ((p : ℕ) → contains p ps ≡ true → length (jobs_at p t) ≤ 1)
unfolding merge_groups
merge_groups-Single [] tx t run =
    (subst (Shrinks tx) (second_is run) (Shrinks-self tx), λ p h. absurd (cc))
merge_groups-Single (p ∷ ps) tx t run =
    let ((merged, u), one, later) =
      >>=-eq-ok (merge_group (suc (length (jobs_at p tx))) p tx) _ run in
    elim (Bool-cases merged) [
      | inr stuck ↦ cc (rw stuck at later)
      | inl fine ↦
          let first =
            merge_group-Single (suc (length (jobs_at p tx))) p tx u
              (one ∙ ap (λ b. ok (b, u)) fine) in
          let (shrinks, rest) = merge_groups-Single ps u t (rw fine at later) in
          (
            Shrinks-then first.shrinks shrinks,
            λ q h. elim (Bool-cases (q == p)) [
              | inl same ↦
                  let q_is : p ≡ q = ground arith in
                  let now : length (jobs_at q u) ≤ 1 =
                    subst (λ x. length (jobs_at x u) ≤ 1) q_is first.single in
                  omega (arith, now, shrinks.shorter q)
              | inr other ↦ rest q (ground arith)
            ],
          )
    ]

unlisted : (p : ℕ) (m : List (ℕ × List ℕ)) → contains p (keys m) ≡ false → find p m ≡ none
unfolding keys
unlisted p [] h = refl
unlisted p ((q, js) ∷ m) h = ground (arith, unlisted p m)

-- In a transaction that is generated no object has more than one job.
pub new_transaction-single :
    (p : ℕ) (op : JobType) (g : Graph) (made : Gen) (q : ℕ)
    → new_transaction p op g ≡ ok made
    → length (jobs_at q made.tx) ≤ 1
unfolding new_transaction merge_jobs
new_transaction-single p op g made q run =
    let ((objective, s), submits, run1) =
      >>=-eq-ok (job_submit (enough_fuel g) p op true (fresh g)) _ run in
    let ((acyclic, s'), verifies, run2) =
      >>=-eq-ok (verify_acyclic (record s { tx = record s.tx { objective = some objective } })) _
        run1 in
    elim (Bool-cases acyclic) [
      | inr cyclic ↦ cc (rw cyclic at run2)
      | inl fine ↦
          let ((merged, u), merges, run3) =
            >>=-eq-ok (merge_groups (keys s'.tx.jobs) s'.tx) _ (rw fine at run2) in
          elim (Bool-cases merged) [
            | inr unmergeable ↦ cc (rw unmergeable at run3)
            | inl all ↦
                let (shrinks, few) =
                  merge_groups-Single (keys s'.tx.jobs) s'.tx u
                    (merges ∙ ap (λ b. ok (b, u)) all) in
                let short : length (jobs_at q u) ≤ 1 =
                  elim (Bool-cases (contains q (keys s'.tx.jobs))) [
                    | inl listed ↦ few q listed
                    | inr absent ↦
                        let none_there = unlisted q s'.tx.jobs absent in
                        let empty : length (jobs_at q s'.tx) ≡ 0 =
                          ap (λ o. length (list_of o)) none_there in
                        omega (arith, empty, shrinks.shorter q)
                  ] in
                subst (λ x. length (jobs_at q x.tx) ≤ 1) (ok-injective (rw all at run3)) short
          ]
    ]
