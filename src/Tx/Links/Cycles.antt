-- ===== src/Tx/Links/Cycles.antt =====
-- The removal of ordering cycles keeps the links.
use neo_init_ware.Common.{
  second_is, ℕ, ◌≡◌, subst, Bool, true, List, [], ◌∷◌, Result, ok, >>=-eq-ok, Bool-cases,
  List-cases, inl, inr, if◌then◌else◌,
}
use mathlib.Core.List.{reverse}
use neo_init_ware.Tx.Model.{Transaction, Gen, jobs_at, ensure_entry, load_job}
use neo_init_ware.Tx.Delete.{get_del_lists, object_del_jobs}
use neo_init_ware.Tx.Order.{
  object_creates_cycle, object_requires_all_jobs, remove_from, try_remove_cycle, search_fuel,
  check_object, verify_objects, verify_acyclic, keys,
}
use neo_init_ware.Tx.Links.{IsLinked}
use neo_init_ware.Tx.Links.Deleted.{
  SameHeap-IsLinked, ensure_entry-SameHeap, get_del_lists-SameHeap, delete_jobs-IsLinked,
}

ensure_entry-IsLinked : (p : ℕ) (tx : Transaction) → IsLinked tx → IsLinked (ensure_entry p tx)
ensure_entry-IsLinked p tx = SameHeap-IsLinked tx (ensure_entry p tx) (ensure_entry-SameHeap p tx)

object_del_jobs-IsLinked :
    (p : ℕ) (tx t : Transaction) → object_del_jobs p tx ≡ ok t → IsLinked tx → IsLinked t
unfolding object_del_jobs
object_del_jobs-IsLinked p tx t run linked =
    let ((l, u), lists, deletes) =
      >>=-eq-ok (get_del_lists (jobs_at p tx) [] (ensure_entry p tx)) _ run in
    let same = get_del_lists-SameHeap (jobs_at p tx) [] (ensure_entry p tx) l u lists in
    delete_jobs-IsLinked l u t deletes
      (SameHeap-IsLinked (ensure_entry p tx) u same (ensure_entry-IsLinked p tx linked))

remove_from-IsLinked :
    (ps : List ℕ) (tx : Transaction) (b : Bool) (t : Transaction)
    → remove_from ps tx ≡ ok (b, t)
    → IsLinked tx
    → IsLinked t
unfolding remove_from
remove_from-IsLinked [] tx b t run linked = subst IsLinked (second_is run) linked
remove_from-IsLinked (p ∷ ps) tx b t run linked =
    let (essential, asks, run1) = >>=-eq-ok (object_requires_all_jobs p tx) _ run in
    let ensured = ensure_entry-IsLinked p tx linked in
    elim (Bool-cases essential) [
      | inl needed ↦ remove_from-IsLinked ps (ensure_entry p tx) b t (rw needed at run1) ensured
      | inr spare ↦
          let (u, deletes, gives) =
            >>=-eq-ok (object_del_jobs p (ensure_entry p tx)) _ (rw spare at run1) in
          subst IsLinked (second_is gives)
            (object_del_jobs-IsLinked p (ensure_entry p tx) u deletes ensured)
    ]

third_is : {b c : Bool} {s t : Gen} → ◌≡◌ {A = Result (Bool × Gen)} (ok (b, s)) (ok (c, t)) → s ≡ t
third_is e = cc

check_object-IsLinked :
    (p : ℕ) (s : Gen) (b : Bool) (t : Gen)
    → check_object p s ≡ ok (b, t)
    → IsLinked s.tx
    → IsLinked t.tx
unfolding check_object try_remove_cycle
check_object-IsLinked p s b t run linked = elim (List-cases (jobs_at p s.tx)) [
  | inl empty ↦ subst (λ x. IsLinked x.tx) (third_is (rw (empty, check_object) at run)) linked
  | inr (j, js, listed) ↦
      let (c, read, run1) = >>=-eq-ok (load_job j s.tx) _ (rw (listed, check_object) at run) in
      let (found, searched, run2) =
        >>=-eq-ok (object_creates_cycle (search_fuel s.graph) s.tx c.object [] s.graph) _ run1 in
      let ((resolved, u), removes, gives) =
        >>=-eq-ok (if found.cyclic then try_remove_cycle found.path s.tx else ok (true, s.tx)) _
          run2 in
      let kept : IsLinked u = elim (Bool-cases found.cyclic) [
        | inl cyclic ↦
            remove_from-IsLinked (reverse found.path) s.tx resolved u (rw cyclic at removes) linked
        | inr acyclic ↦ subst IsLinked (second_is (rw acyclic at removes)) linked
      ] in
      subst (λ x. IsLinked x.tx) (third_is gives) kept
]

verify_objects-IsLinked :
    (ps : List ℕ) (s : Gen) (b : Bool) (t : Gen)
    → verify_objects ps s ≡ ok (b, t)
    → IsLinked s.tx
    → IsLinked t.tx
unfolding verify_objects
verify_objects-IsLinked [] s b t run linked = subst (λ x. IsLinked x.tx) (third_is run) linked
verify_objects-IsLinked (p ∷ ps) s b t run linked =
    let ((resolved, u), checks, later) = >>=-eq-ok (check_object p s) _ run in
    let kept = check_object-IsLinked p s resolved u checks linked in
    elim (Bool-cases resolved) [
      | inl fine ↦ verify_objects-IsLinked ps u b t (rw fine at later) kept
      | inr stuck ↦ subst (λ x. IsLinked x.tx) (third_is (rw stuck at later)) kept
    ]

pub verify_acyclic-IsLinked :
    (s : Gen) (b : Bool) (t : Gen) → verify_acyclic s ≡ ok (b, t) → IsLinked s.tx → IsLinked t.tx
unfolding verify_acyclic
verify_acyclic-IsLinked s b t run linked = verify_objects-IsLinked (keys s.tx.jobs) s b t run linked
