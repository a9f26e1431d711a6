-- ===== src/Tx/Links/Submitted.antt =====
-- Submission of a job keeps the links.
use neo_init_ware.Common.{
  ℕ, zero, suc, ◌≡◌, subst, Bool, true, false, some, List, [], ◌∷◌, refl, Result, ok, ok-injective,
  >>=-eq-ok, ◌&&◌, Bool-cases, Option-cases, inl, inr, if◌then◌else◌, arith,
}
use neo_init_ware.Objects.{Edge, has_flag, object_get}
use neo_init_ware.Tx.JobType.{JobType, same_type}
use neo_init_ware.Tx.Model.{Transaction, Gen, jobs_at, modify_job, load_job}
use neo_init_ware.Tx.Submit.{
  Visitor, Submit, edges_of, find_type, emplace_job, submit_name, follow_edge, visit_edge,
  visit_edges, run_visitors, submit_new, visitors, job_submit,
}
use neo_init_ware.Tx.Links.Grow.{
  IsSafe, IsLiveJob, Grows, Grows-then, Grows-same, modify_job-Grows, emplace_job-Grows,
}
use neo_init_ware.Tx.Links.Require.{add_req-Grows}

find_type-IsLiveJob :
    (op : JobType) (js : List ℕ) (tx : Transaction) (j : ℕ)
    → find_type op js tx ≡ some j
    → IsLiveJob j tx
unfolding find_type
find_type-IsLiveJob op [] tx j found = cc
find_type-IsLiveJob op (k ∷ js) tx j found = elim (Option-cases (tx.job k)) [
  | inl dangling ↦ find_type-IsLiveJob op js tx j (rw (dangling, find_type) at found)
  | inr (b, at) ↦ elim (Bool-cases (same_type b.type op)) [
    | inl hit ↦
        let k_is : some k ≡ some j = rw (hit, find_type) at (rw (at, find_type) at found) in
        subst (λ x. IsLiveJob x tx) (ground arith) (b, at)
    | inr other ↦
        find_type-IsLiveJob op js tx j (rw (other, find_type) at (rw (at, find_type) at found))
  ]
]

-- `goal_required` is set on the job, or not.
mark-Grows :
    (goal : Bool) (j : ℕ) (tx : Transaction)
    → IsSafe tx
    → Grows tx (if goal then modify_job j (λ b. record b { goal_required = true }) tx else tx)
mark-Grows true j tx safe =
    modify_job-Grows j (λ b. record b { goal_required = true }) tx (λ b. refl) (λ b. refl) safe
mark-Grows false j tx safe = Grows-same tx safe

-- The submission that the visitors call keeps the links, and the job that it gives is in memory.
abbrev SubmitsSafely : Submit → Type 0
SubmitsSafely submit =
    (p : ℕ) (op : JobType) (goal : Bool) (s t : Gen) (j : ℕ)
    → submit p op goal s ≡ ok (j, t)
    → IsSafe s.tx
    → Grows s.tx t.tx × IsLiveJob j t.tx

pair_split :
    {A B : Type 0} {a b : A} {c d : B}
    → ◌≡◌ {A = Result (A × B)} (ok (a, c)) (ok (b, d))
    → (a ≡ b) × (c ≡ d)
pair_split e = (cc, cc)

module _ (submit : Submit) (safely : SubmitsSafely submit) where
  follow_edge-Grows :
      (v : Visitor) (requirer : ℕ) (e : Edge) (s t : Gen)
      → follow_edge submit v requirer e s ≡ ok t
      → IsSafe s.tx
      → Grows s.tx t.tx
  unfolding follow_edge submit_name
  follow_edge-Grows v requirer e s t run safe =
      let (b, is_job, run1) = >>=-eq-ok (load_job requirer s.tx) _ run in
      let ((sj, u), submits, run2) =
        >>=-eq-ok (submit_name submit e.to v.op (b.goal_required && v.is_required) s) _ run1 in
      let ((p, g), got, inner) = >>=-eq-ok (object_get e.to s.graph) _ submits in
      let (grows, sj_live) =
        safely p v.op (b.goal_required && v.is_required) (record s { graph = g }) u sj inner safe in
      let at : s.tx.job requirer ≡ some b = ground arith in
      let added =
        add_req-Grows requirer sj v.is_required (b.goal_required && v.is_required) u.tx grows.safe
          (grows.lives requirer (b, at)) sj_live in
      subst (λ x. Grows s.tx x.tx) (ok-injective run2) (Grows-then grows added)

  visit_edge-Grows :
      (v : Visitor) (requirer : ℕ) (e : Edge) (s t : Gen)
      → visit_edge submit v requirer e s ≡ ok t
      → IsSafe s.tx
      → Grows s.tx t.tx
  unfolding visit_edge
  visit_edge-Grows v requirer e s t run safe = elim (Bool-cases (has_flag v.flag e)) [
    | inl flagged ↦ follow_edge-Grows v requirer e s t (rw flagged at run) safe
    | inr other ↦
        subst (λ x. Grows s.tx x.tx) (ok-injective (rw other at run)) (Grows-same s.tx safe)
  ]

  visit_edges-Grows :
      (v : Visitor) (requirer : ℕ) (es : List Edge) (s t : Gen)
      → visit_edges submit v requirer es s ≡ ok t
      → IsSafe s.tx
      → Grows s.tx t.tx
  unfolding visit_edges
  visit_edges-Grows v requirer [] s t run safe =
      subst (λ x. Grows s.tx x.tx) (ok-injective run) (Grows-same s.tx safe)
  visit_edges-Grows v requirer (e ∷ es) s t run safe =
      let (u, one, later) = >>=-eq-ok (visit_edge submit v requirer e s) _ run in
      let first = visit_edge-Grows v requirer e s u one safe in
      Grows-then first (visit_edges-Grows v requirer es u t later first.safe)

  run_visitors-Grows :
      (vs : List Visitor) (p requirer : ℕ) (s t : Gen)
      → run_visitors submit vs p requirer s ≡ ok t
      → IsSafe s.tx
      → Grows s.tx t.tx
  unfolding run_visitors
  run_visitors-Grows [] p requirer s t run safe =
      subst (λ x. Grows s.tx x.tx) (ok-injective run) (Grows-same s.tx safe)
  run_visitors-Grows (v ∷ vs) p requirer s t run safe =
      let (u, one, later) =
        >>=-eq-ok (visit_edges submit v requirer (edges_of p s.graph) s) _ run in
      let first = visit_edges-Grows v requirer (edges_of p s.graph) s u one safe in
      Grows-then first (run_visitors-Grows vs p requirer u t later first.safe)

  submit_new-Grows : SubmitsSafely (submit_new submit)
  unfolding submit_new
  submit_new-Grows p op goal s t j run safe =
      let placed = (emplace_job-Grows p op s.tx safe).0 in
      let place_live = (emplace_job-Grows p op s.tx safe).1 in
      let marked = mark-Grows goal s.tx.next_job (emplace_job p op s.tx) placed.safe in
      let start = record s {
        tx =
            if goal
            then modify_job s.tx.next_job (λ b. record b { goal_required = true })
                (emplace_job p op s.tx)
            else emplace_job p op s.tx;
      } in
      let (u, visits, gives) =
        >>=-eq-ok (run_visitors submit (visitors op) p s.tx.next_job start) _ run in
      let visited = run_visitors-Grows (visitors op) p s.tx.next_job start u visits marked.safe in
      let (j_is, t_is) = pair_split gives in
      let live = visited.lives s.tx.next_job (marked.lives s.tx.next_job place_live) in
      (
        subst (λ x. Grows s.tx x.tx) t_is (Grows-then placed (Grows-then marked visited)),
        subst (λ x. IsLiveJob j x.tx) t_is (subst (λ k. IsLiveJob k u.tx) j_is live),
      )

pub job_submit-Grows : (fuel : ℕ) → SubmitsSafely (job_submit fuel)
unfolding job_submit
job_submit-Grows zero p op goal s t j run safe = cc
job_submit-Grows (suc fuel) p op goal s t j run safe =
    elim (Option-cases (find_type op (jobs_at p s.tx) s.tx)) [
      | inl absent ↦
          submit_new-Grows (job_submit fuel) (job_submit-Grows fuel) p op goal s t j
            (rw (absent, job_submit) at run) safe
      | inr (k, found) ↦
          let marked = mark-Grows goal k s.tx safe in
          let (j_is, t_is) = pair_split (rw (found, job_submit) at run) in
          let live = marked.lives k (find_type-IsLiveJob op (jobs_at p s.tx) s.tx k found) in
          (
            subst (λ x. Grows s.tx x.tx) t_is marked,
            subst (λ x. IsLiveJob j x.tx) t_is
                (subst
                  (λ i.
                    IsLiveJob i
                      (record s {
                        tx =
                            if goal
                            then modify_job k (λ b. record b { goal_required = true }) s.tx
                            else s.tx;
                      }).tx)
                  j_is live),
          )
    ]
