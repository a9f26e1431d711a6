-- ===== src/Tx/Links/Merging.antt =====
-- The merging of jobs, and with it the constructor of a transaction, keeps the links.
use neo_init_ware.Common.{
  ℕ, ◌≡◌, ◌==◌, ◌∙◌, ap, sym, subst, true, none, some, List, [], refl, contains, ok, ok-injective,
  >>=-eq-ok, if◌then◌else◌, arith,
}
use neo_init_ware.Tx.Model.{Job, Transaction, modify_job, load_job}
use neo_init_ware.Tx.Generate.{
  load_reqs, merge_set, left_of_merge, redirect_from, redirect_to, merge_job_into,
}
use neo_init_ware.Tx.Links.{
  IsLinked, IsOnce, reqs_of, on_of, reqs_in, on_in, is_from, is_on, from_is, to_is, changed,
}
use neo_init_ware.Tx.Links.Merged.{
  redirected, from_into, to_into, redirect_from-req, redirect_to-req, redirect_from-job,
  redirect_to-job, merge_lists, merged_from, merged_to, from_is-to_into, to_is-inner, changed_list,
  contains-merged, merged-IsOnce,
}

module _ (job into : ℕ) (tx : Transaction) (b c : Job) (at : tx.job job ≡ some b)
    (into_at : tx.job into ≡ some c) (linked : IsLinked tx) where
  abbrev turned : Transaction
  turned = redirect_to into b.reqs_on (redirect_from into b.reqs tx)

  abbrev fill : Job → Job
  fill x = record x {
    reqs = merge_set x.reqs b.reqs;
    reqs_on = merge_set x.reqs_on b.reqs_on;
    goal_required = if b.goal_required then true else x.goal_required;
  }

  abbrev drain : Job → Job
  drain x = record x {
    reqs = left_of_merge c.reqs x.reqs;
    reqs_on = left_of_merge c.reqs_on x.reqs_on;
  }

  abbrev merged : Transaction
  merged = modify_job job drain (modify_job into fill turned)

  turned-job : turned.job ≡ tx.job
  turned-job =
      redirect_to-job into b.reqs_on (redirect_from into b.reqs tx)
      ∙ redirect_from-job into b.reqs tx

  there : (k : ℕ) → (into == k) ≡ true → tx.job k ≡ none → (xs : List ℕ) → merge_set [] xs ≡ []
  there k same absent xs =
      let k_at : tx.job k ≡ some c = subst (λ x. tx.job x ≡ some c) (ground arith) into_at in cc

  reqs_after :
      (k : ℕ)
      → reqs_of merged k ≡ (
          if job == k
          then left_of_merge c.reqs
              (if into == k then merge_set (reqs_of tx k) b.reqs else reqs_of tx k)
          else (if into == k then merge_set (reqs_of tx k) b.reqs else reqs_of tx k))
  reqs_after k =
      changed_list reqs_in drain (left_of_merge c.reqs) refl (λ x. refl) (job == k)
        ((modify_job into fill turned).job k) (λ s n. refl)
      ∙ ap (λ xs. if job == k then left_of_merge c.reqs xs else xs)
          (ap (λ h. reqs_in (if into == k then changed fill (h k) else h k)) turned-job
            ∙ changed_list reqs_in fill (λ xs. merge_set xs b.reqs) refl (λ x. refl) (into == k)
                (tx.job k) (λ s n. there k s n b.reqs))

  on_after :
      (k : ℕ)
      → on_of merged k ≡ (
          if job == k
          then left_of_merge c.reqs_on
              (if into == k then merge_set (on_of tx k) b.reqs_on else on_of tx k)
          else (if into == k then merge_set (on_of tx k) b.reqs_on else on_of tx k))
  on_after k =
      changed_list on_in drain (left_of_merge c.reqs_on) refl (λ x. refl) (job == k)
        ((modify_job into fill turned).job k) (λ s n. refl)
      ∙ ap (λ xs. if job == k then left_of_merge c.reqs_on xs else xs)
          (ap (λ h. on_in (if into == k then changed fill (h k) else h k)) turned-job
            ∙ changed_list on_in fill (λ xs. merge_set xs b.reqs_on) refl (λ x. refl) (into == k)
                (tx.job k) (λ s n. there k s n b.reqs_on))

  req_after :
      (i : ℕ)
      → turned.req i
        ≡ redirected
            (to_into into)
            (contains i b.reqs_on)
            (redirected (from_into into) (contains i b.reqs) (tx.req i))
  req_after i =
      redirect_to-req into b.reqs_on (redirect_from into b.reqs tx) i
      ∙ ap (redirected (to_into into) (contains i b.reqs_on)) (redirect_from-req into b.reqs tx i)

  in_job : (i : ℕ) → contains i b.reqs ≡ is_from tx i job
  in_job i = sym (ap (λ o. contains i (reqs_in o)) at) ∙ linked.from job i

  on_job : (i : ℕ) → contains i b.reqs_on ≡ is_on tx i job
  on_job i = sym (ap (λ o. contains i (on_in o)) at) ∙ linked.on job i

  in_into : (i : ℕ) → contains i c.reqs ≡ is_from tx i into
  in_into i = sym (ap (λ o. contains i (reqs_in o)) into_at) ∙ linked.from into i

  on_into : (i : ℕ) → contains i c.reqs_on ≡ is_on tx i into
  on_into i = sym (ap (λ o. contains i (on_in o)) into_at) ∙ linked.on into i

  merged-IsLinked : IsLinked merged
  merged-IsLinked = record { from = from; on = on; once = once; once_on = once_on }
    where
      from : (k i : ℕ) → contains i (reqs_of merged k) ≡ is_from merged i k
      from k i =
          ap (contains i) (reqs_after k)
          ∙ contains-merged i (job == k) (into == k) c.reqs (reqs_of tx k) b.reqs
          ∙ ap
              (λ x.
                merge_lists (job == k) (into == k) x (contains i (reqs_of tx k))
                  (contains i b.reqs))
              (in_into i)
          ∙ ap (λ x. merge_lists (job == k) (into == k) (is_from tx i into) x (contains i b.reqs))
              (linked.from k i)
          ∙ ap (λ x. merge_lists (job == k) (into == k) (is_from tx i into) (is_from tx i k) x)
              (in_job i)
          ∙ merged_from job into k (tx.req i)
          ∙ sym (
              ap (from_is k) (req_after i)
              ∙ from_is-to_into into k (contains i b.reqs_on)
                  (redirected (from_into into) (contains i b.reqs) (tx.req i))
              ∙ ap (λ x. from_is k (redirected (from_into into) x (tx.req i))) (in_job i))

      on : (k i : ℕ) → contains i (on_of merged k) ≡ is_on merged i k
      on k i =
          ap (contains i) (on_after k)
          ∙ contains-merged i (job == k) (into == k) c.reqs_on (on_of tx k) b.reqs_on
          ∙ ap
              (λ x.
                merge_lists (job == k) (into == k) x (contains i (on_of tx k))
                  (contains i b.reqs_on))
              (on_into i)
          ∙ ap (λ x. merge_lists (job == k) (into == k) (is_on tx i into) x (contains i b.reqs_on))
              (linked.on k i)
          ∙ ap (λ x. merge_lists (job == k) (into == k) (is_on tx i into) (is_on tx i k) x)
              (on_job i)
          ∙ merged_to job into k (tx.req i)
          ∙ sym (
              ap (to_is k) (req_after i)
              ∙ to_is-inner into k (contains i b.reqs_on) (contains i b.reqs) (tx.req i)
              ∙ ap (λ x. to_is k (redirected (to_into into) x (tx.req i))) (on_job i))

      once : (k : ℕ) → IsOnce (reqs_of merged k)
      once k = subst IsOnce (sym (reqs_after k)) (
          merged-IsOnce (job == k) (into == k) c.reqs (reqs_of tx k) b.reqs (linked.once k)
            (subst (λ o. IsOnce (reqs_in o)) at (linked.once job)))

      once_on : (k : ℕ) → IsOnce (on_of merged k)
      once_on k = subst IsOnce (sym (on_after k)) (
          merged-IsOnce (job == k) (into == k) c.reqs_on (on_of tx k) b.reqs_on (linked.once_on k)
            (subst (λ o. IsOnce (on_in o)) at (linked.once_on job)))

pub merge_job_into-IsLinked :
    (job into : ℕ) (tx t : Transaction)
    → merge_job_into job into tx ≡ ok t
    → IsLinked tx
    → IsLinked t
unfolding merge_job_into
merge_job_into-IsLinked job into tx t run linked =
    let (b, read, run1) = >>=-eq-ok (load_job job tx) _ run in
    let (c, read_into, run2) = >>=-eq-ok (load_job into tx) _ run1 in
    let (_, live_from, run3) = >>=-eq-ok (load_reqs b.reqs tx) _ run2 in
    let (_, live_to, run4) = >>=-eq-ok (load_reqs b.reqs_on tx) _ run3 in
    let at : tx.job job ≡ some b = ground arith in
    let into_at : tx.job into ≡ some c = ground arith in
    subst IsLinked (ok-injective run4) (merged-IsLinked job into tx b c at into_at linked)
