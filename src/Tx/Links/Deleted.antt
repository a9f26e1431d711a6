-- ===== src/Tx/Links/Deleted.antt =====
-- Deletions, and the removal of cycles, keep the links.
use neo_init_ware.Common.{
  second_is, ℕ, zero, suc, ◌≡◌, ◌∙◌, ap, sym, subst, some, List, [], ◌∷◌, refl, contains, ok,
  ok-injective, >>=-eq-ok, Bool-cases, inl, inr, if◌then◌else◌, arith,
}
use neo_init_ware.Tx.Model.{Job, Transaction, jobs_at, ensure_entry, load_job, load_req}
use neo_init_ware.Tx.Delete.{
  delete_job, delete_jobs, GetDelList, visit_requirers, take_listed, get_del_list, get_del_lists,
}
use neo_init_ware.Tx.Links.{IsLinked, IsOnce, reqs_in, on_in, from_is, to_is}
use neo_init_ware.Tx.Links.Destroy.{delete_job-IsLinked}

-- The jobs and requirements in memory are the same.
pub record SameHeap (tx after : Transaction) : Type 0 where
  pub job : after.job ≡ tx.job
  pub req : after.req ≡ tx.req

pub SameHeap-IsLinked : (tx after : Transaction) → SameHeap tx after → IsLinked tx → IsLinked after
SameHeap-IsLinked tx after same linked = record {
  from = λ j r.
      ap (λ h. contains r (reqs_in (h j))) same.job
      ∙ linked.from j r
      ∙ sym (ap (λ h. from_is j (h r)) same.req);
  on = λ j r.
      ap (λ h. contains r (on_in (h j))) same.job
      ∙ linked.on j r
      ∙ sym (ap (λ h. to_is j (h r)) same.req);
  once = λ j. subst (λ h. IsOnce (reqs_in (h j))) (sym same.job) (linked.once j);
  once_on = λ j. subst (λ h. IsOnce (on_in (h j))) (sym same.job) (linked.once_on j);
}

SameHeap-then : {a b c : Transaction} → SameHeap a b → SameHeap b c → SameHeap a c
SameHeap-then x y = record { job = y.job ∙ x.job; req = y.req ∙ x.req }

pub SameHeap-self : (a : Transaction) → SameHeap a a
SameHeap-self a = record { job = refl; req = refl }

pub delete_job-keeps_links :
    (j : ℕ) (tx t : Transaction) → delete_job j tx ≡ ok t → IsLinked tx → IsLinked t
unfolding delete_job
delete_job-keeps_links j tx t run linked =
    let (b, is_job, later) = >>=-eq-ok (load_job j tx) _ run in
    let at : tx.job j ≡ some b = ground arith in
    let (after, runs, safe, gone, kept, reqs) = delete_job-IsLinked j tx b linked at in
    subst IsLinked (ok-injective (sym runs ∙ run)) safe

pub delete_jobs-IsLinked :
    (js : List ℕ) (tx t : Transaction) → delete_jobs js tx ≡ ok t → IsLinked tx → IsLinked t
unfolding delete_jobs
delete_jobs-IsLinked [] tx t run linked = subst IsLinked (ok-injective run) linked
delete_jobs-IsLinked (j ∷ js) tx t run linked =
    let (u, one, later) = >>=-eq-ok (delete_job j tx) _ run in
    delete_jobs-IsLinked js u t later (delete_job-keeps_links j tx u one linked)

-- A search for the jobs to delete leaves the memory alone.
abbrev Searches : GetDelList → Type 0
Searches get =
    (j : ℕ) (l : List ℕ) (tx : Transaction) (out : List ℕ) (t : Transaction)
    → get j l tx ≡ ok (out, t)
    → SameHeap tx t

visit_requirers-SameHeap :
    (get : GetDelList)
    → Searches get
    → (rs l : List ℕ) (tx : Transaction) (out : List ℕ) (t : Transaction)
    → visit_requirers get rs l tx ≡ ok (out, t)
    → SameHeap tx t
unfolding visit_requirers
visit_requirers-SameHeap get searches [] l tx out t run =
    subst (SameHeap tx) (second_is run) (SameHeap-self tx)
visit_requirers-SameHeap get searches (r ∷ rs) l tx out t run =
    let (q, read, run1) = >>=-eq-ok (load_req r tx) _ run in
    let ((l', u), one, later) =
      >>=-eq-ok (if q.required then get q.from l tx else ok (l, tx)) _ run1 in
    let first : SameHeap tx u = elim (Bool-cases q.required) [
      | inl needed ↦ searches q.from l tx l' u (rw needed at one)
      | inr weak ↦ subst (SameHeap tx) (second_is (rw weak at one)) (SameHeap-self tx)
    ] in
    SameHeap-then first (visit_requirers-SameHeap get searches rs l' u out t later)

pub ensure_entry-SameHeap : (p : ℕ) (tx : Transaction) → SameHeap tx (ensure_entry p tx)
ensure_entry-SameHeap p tx = record { job = refl; req = refl }

take_listed-SameHeap : (get : GetDelList) (b : Job) → Searches get → Searches (take_listed get b)
unfolding take_listed
take_listed-SameHeap get b searches j l tx out t run =
    elim (Bool-cases (contains j (jobs_at b.object tx))) [
      | inl listed ↦
          let same = second_is (rw listed at run) in
          record { job = ap (λ x. x.job) (sym same); req = ap (λ x. x.req) (sym same) }
      | inr other ↦
          let rest =
            visit_requirers-SameHeap get searches b.reqs_on l (ensure_entry b.object tx) out t
              (rw other at run) in
          SameHeap-then (ensure_entry-SameHeap b.object tx) rest
    ]

pub get_del_list-SameHeap : (fuel : ℕ) → Searches (get_del_list fuel)
unfolding get_del_list
get_del_list-SameHeap zero j l tx out t run = cc
get_del_list-SameHeap (suc fuel) j l tx out t run =
    let (b, read, run1) = >>=-eq-ok (load_job j tx) _ run in
    elim (Bool-cases (contains j l)) [
      | inl old ↦ subst (SameHeap tx) (second_is (rw old at run1)) (SameHeap-self tx)
      | inr new ↦
          take_listed-SameHeap (get_del_list fuel) b (get_del_list-SameHeap fuel) j l tx out t
            (rw new at run1)
    ]

pub get_del_lists-SameHeap :
    (js l : List ℕ) (tx : Transaction) (out : List ℕ) (t : Transaction)
    → get_del_lists js l tx ≡ ok (out, t)
    → SameHeap tx t
unfolding get_del_lists
get_del_lists-SameHeap [] l tx out t run = subst (SameHeap tx) (second_is run) (SameHeap-self tx)
get_del_lists-SameHeap (j ∷ js) l tx out t run =
    let ((l', u), one, later) = >>=-eq-ok (get_del_list (suc tx.next_job) j l tx) _ run in
    SameHeap-then (get_del_list-SameHeap (suc tx.next_job) j l tx l' u one)
      (get_del_lists-SameHeap js l' u out t later)
