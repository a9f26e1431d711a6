-- ===== src/Tx/Single/Lists.antt =====
-- Deletion and merging never lengthen an object's list of jobs.
use neo_init_ware.Common.{
  second_is, ℕ, zero, suc, ◌≤◌, ◌≡◌, ◌==◌, ◌∙◌, ap, sym, subst, Bool, true, false, Option, none,
  some, List, [], ◌∷◌, refl, contains, erase, length, find, find-put, ok, ok-injective, >>=-eq-ok,
  Bool-cases, inl, inr, if◌then◌else◌, arith,
}
use neo_init_ware.Tx.Model.{
  Job, Transaction, jobs_at, ensure_entry, set_jobs, modify_job, load_job, load_req,
}
use neo_init_ware.Tx.Delete.{
  erase_req, erase_req_on, delete_req, del_found_req, del_req, del_reqs_on, delete_reqs, delete_job,
  delete_jobs, GetDelList, visit_requirers, take_listed, get_del_list,
}

pub record Shrinks (tx t : Transaction) : Type 0 where
  pub shorter : (p : ℕ) → length (jobs_at p t) ≤ length (jobs_at p tx)

pub Shrinks-then : {a b c : Transaction} → Shrinks a b → Shrinks b c → Shrinks a c
Shrinks-then x y = record { shorter = λ p. omega (arith, x.shorter p, y.shorter p) }

-- The map is the same.
pub same_map-Shrinks : (tx t : Transaction) → t.jobs ≡ tx.jobs → Shrinks tx t
same_map-Shrinks tx t same = record {
  shorter = λ p.
      let e : length (jobs_at p t) ≡ length (jobs_at p tx) =
        ap (λ m. length (jobs_at p (record tx { jobs = m }))) same in
      omega (arith, e);
}

abbrev pub list_of : Option (List ℕ) → List ℕ
list_of o = elim o [ none ↦ [] | some js ↦ js ]

pub jobs_at-set_jobs :
    (p q : ℕ) (js : List ℕ) (tx : Transaction)
    → jobs_at q (set_jobs p js tx) ≡ (if p == q then js else jobs_at q tx)
jobs_at-set_jobs p q js tx = ap list_of (find-put p q js tx.jobs) ∙ pick (p == q) (find q tx.jobs)
  where
    pick :
        (c : Bool) (o : Option (List ℕ))
        → list_of (if c then some js else o) ≡ (if c then js else list_of o)
    pick true o = refl
    pick false o = refl

pub set_jobs-Shrinks :
    (p : ℕ) (js : List ℕ) (tx : Transaction)
    → length js ≤ length (jobs_at p tx)
    → Shrinks tx (set_jobs p js tx)
set_jobs-Shrinks p js tx short = record {
  shorter = λ q. elim (Bool-cases (p == q)) [
    | inl same ↦
        let q_is : p ≡ q = ground arith in
        let e : length (jobs_at q (set_jobs p js tx)) ≡ length js =
          ap length (jobs_at-set_jobs p q js tx) ∙ rw same refl in
        let f : length (jobs_at p tx) ≡ length (jobs_at q tx) =
          ap (λ x. length (jobs_at x tx)) q_is in
        omega (arith, e, f, short)
    | inr other ↦
        let e : length (jobs_at q (set_jobs p js tx)) ≡ length (jobs_at q tx) =
          ap length (jobs_at-set_jobs p q js tx) ∙ rw other refl in
        omega (arith, e)
  ];
}

pub ensure_entry-Shrinks : (p : ℕ) (tx : Transaction) → Shrinks tx (ensure_entry p tx)
ensure_entry-Shrinks p tx = set_jobs-Shrinks p (jobs_at p tx) tx (omega arith)

erase-le : (j : ℕ) (js : List ℕ) → length (erase j js) ≤ length js
erase-le j [] = omega arith
erase-le j (k ∷ js) = elim (Bool-cases (j == k)) [
  | inl same ↦ rw same (omega (arith, erase-le j js))
  | inr other ↦ rw other (omega (arith, erase-le j js))
]

-- The destructors leave the map alone.
delete_req-jobs : (r : ℕ) (tx t : Transaction) → delete_req r tx ≡ ok t → t.jobs ≡ tx.jobs
unfolding delete_req
delete_req-jobs r tx t run =
    let (q, read, run1) = >>=-eq-ok (load_req r tx) _ run in
    let (b, live, gives) = >>=-eq-ok (load_job q.to tx) _ run1 in
    sym (ap (λ x. x.jobs) (ok-injective gives))

del_found_req-jobs : (j r : ℕ) (tx t : Transaction) → del_found_req j r tx ≡ ok t → t.jobs ≡ tx.jobs
unfolding del_found_req
del_found_req-jobs j r tx t run =
    let (q, read, run1) = >>=-eq-ok (load_req r tx) _ run in
    let (b, live, deletes) = >>=-eq-ok (load_job q.to tx) _ run1 in
    delete_req-jobs r (modify_job j (erase_req r) (modify_job q.to (erase_req_on r) tx)) t deletes

del_req-jobs : (j r : ℕ) (tx t : Transaction) → del_req j r tx ≡ ok t → t.jobs ≡ tx.jobs
unfolding del_req
del_req-jobs j r tx t run =
    let (b, read, later) = >>=-eq-ok (load_job j tx) _ run in
    elim (Bool-cases (contains r b.reqs)) [
      | inl listed ↦ del_found_req-jobs j r tx t (rw listed at later)
      | inr absent ↦ cc (rw absent at later)
    ]

del_reqs_on-jobs :
    (j : ℕ) (rs : List ℕ) (tx t : Transaction) → del_reqs_on j rs tx ≡ ok t → t.jobs ≡ tx.jobs
unfolding del_reqs_on
del_reqs_on-jobs j [] tx t run = sym (ap (λ x. x.jobs) (ok-injective run))
del_reqs_on-jobs j (r ∷ rs) tx t run =
    let (q, read, run1) = >>=-eq-ok (load_req r (modify_job j (erase_req_on r) tx)) _ run in
    let (u, one, later) = >>=-eq-ok (del_req q.from r (modify_job j (erase_req_on r) tx)) _ run1 in
    del_reqs_on-jobs j rs u t later ∙ del_req-jobs q.from r (modify_job j (erase_req_on r) tx) u one

delete_reqs-jobs : (rs : List ℕ) (tx t : Transaction) → delete_reqs rs tx ≡ ok t → t.jobs ≡ tx.jobs
unfolding delete_reqs
delete_reqs-jobs [] tx t run = sym (ap (λ x. x.jobs) (ok-injective run))
delete_reqs-jobs (r ∷ rs) tx t run =
    let (u, one, later) = >>=-eq-ok (delete_req r tx) _ run in
    delete_reqs-jobs rs u t later ∙ delete_req-jobs r tx u one

pub delete_job-jobs : (j : ℕ) (tx t : Transaction) → delete_job j tx ≡ ok t → t.jobs ≡ tx.jobs
unfolding delete_job
delete_job-jobs j tx t run =
    let (b, read, run1) = >>=-eq-ok (load_job j tx) _ run in
    let (u, ons, run2) = >>=-eq-ok (del_reqs_on j b.reqs_on tx) _ run1 in
    let (c, again, run3) = >>=-eq-ok (load_job j u) _ run2 in
    let (v, owns, gives) = >>=-eq-ok (delete_reqs c.reqs u) _ run3 in
    sym (ap (λ x. x.jobs) (ok-injective gives))
    ∙ delete_reqs-jobs c.reqs u v owns
    ∙ del_reqs_on-jobs j b.reqs_on tx u ons

pub delete_jobs-jobs :
    (js : List ℕ) (tx t : Transaction) → delete_jobs js tx ≡ ok t → t.jobs ≡ tx.jobs
unfolding delete_jobs
delete_jobs-jobs [] tx t run = sym (ap (λ x. x.jobs) (ok-injective run))
delete_jobs-jobs (j ∷ js) tx t run =
    let (u, one, later) = >>=-eq-ok (delete_job j tx) _ run in
    delete_jobs-jobs js u t later ∙ delete_job-jobs j tx u one

-- The search for the jobs to delete.
abbrev pub SearchShrinks : GetDelList → Type 0
SearchShrinks get =
    (j : ℕ) (l : List ℕ) (tx : Transaction) (out : List ℕ) (t : Transaction)
    → get j l tx ≡ ok (out, t)
    → Shrinks tx t

pub Shrinks-self : (tx : Transaction) → Shrinks tx tx
Shrinks-self tx = record { shorter = λ p. omega arith }

visit_requirers-Shrinks :
    (get : GetDelList)
    → SearchShrinks get
    → (rs l : List ℕ) (tx : Transaction) (out : List ℕ) (t : Transaction)
    → visit_requirers get rs l tx ≡ ok (out, t)
    → Shrinks tx t
unfolding visit_requirers
visit_requirers-Shrinks get searches [] l tx out t run =
    subst (Shrinks tx) (second_is run) (Shrinks-self tx)
visit_requirers-Shrinks get searches (r ∷ rs) l tx out t run =
    let (q, read, run1) = >>=-eq-ok (load_req r tx) _ run in
    let ((l', u), one, later) =
      >>=-eq-ok (if q.required then get q.from l tx else ok (l, tx)) _ run1 in
    let first : Shrinks tx u = elim (Bool-cases q.required) [
      | inl needed ↦ searches q.from l tx l' u (rw needed at one)
      | inr weak ↦ subst (Shrinks tx) (second_is (rw weak at one)) (Shrinks-self tx)
    ] in
    Shrinks-then first (visit_requirers-Shrinks get searches rs l' u out t later)

take_listed-Shrinks :
    (get : GetDelList) (b : Job) → SearchShrinks get → SearchShrinks (take_listed get b)
unfolding take_listed
take_listed-Shrinks get b searches j l tx out t run =
    elim (Bool-cases (contains j (jobs_at b.object tx))) [
      | inl listed ↦ subst (Shrinks tx) (second_is (rw listed at run)) (
          set_jobs-Shrinks b.object (erase j (jobs_at b.object tx)) tx
            (erase-le j (jobs_at b.object tx)))
      | inr other ↦ Shrinks-then (ensure_entry-Shrinks b.object tx) (
          visit_requirers-Shrinks get searches b.reqs_on l (ensure_entry b.object tx) out t
            (rw other at run))
    ]

pub get_del_list-Shrinks : (fuel : ℕ) → SearchShrinks (get_del_list fuel)
unfolding get_del_list
get_del_list-Shrinks zero j l tx out t run = cc
get_del_list-Shrinks (suc fuel) j l tx out t run =
    let (b, read, run1) = >>=-eq-ok (load_job j tx) _ run in
    elim (Bool-cases (contains j l)) [
      | inl old ↦ subst (Shrinks tx) (second_is (rw old at run1)) (Shrinks-self tx)
      | inr new ↦
          take_listed-Shrinks (get_del_list fuel) b (get_del_list-Shrinks fuel) j l tx out t
            (rw new at run1)
    ]
