-- ===== src/Tx/Submit/Complete.antt =====
-- Job submission brings all that the jobs ask for.
use neo_init_ware.Common.{
  ℕ, zero, suc, ◌≡◌, refl, inl, inr, String, Bool, true, ◌&&◌, some, List, [], ◌∷◌, ok, >>=-eq-ok,
  ok-injective, All, contains, Bool-cases, Option-cases, arith, sym, ◌∙◌, ap, subst,
}
use neo_init_ware.Objects.{Edge, has_flag, object_get}
use neo_init_ware.Tx.JobType.{JobType, same_type, same_type-eq}
use neo_init_ware.Tx.Model.{Job, Transaction, Gen, jobs_at, new_job, load_job}
use neo_init_ware.Tx.Submit.{
  Visitor, visitors, edges_of, find_type, mark_goal, emplace_job, Submit, submit_name, follow_edge,
  visit_edge, visit_edges, run_visitors, submit_new, job_submit,
}
use neo_init_ware.Objects.Resolve.{IsLive, object_get-Resolves}
use neo_init_ware.Tx.Submit.Progress.{
  IsFit, Meets, Meets-grows, MeetsAll, MeetsAll-grows, IsComplete, GenGrows, GenGrows-trans,
  edges_of-grows,
}
use neo_init_ware.Tx.Submit.Steps.{
  Present, Progress, Progress-refl, Progress-trans, Present-grows, Progress-graph, Progress-mark,
  Progress-add_req, add_req-Meets,
}
use neo_init_ware.Tx.Submit.Emplace.{
  emplaced-is_listed, emplaced-new, emplaced-Present, emplaced-GenGrows, emplaced-IsFit,
}

-- What a call of `job_submit` achieves.
pub record Submitted (s : Gen) (p : ℕ) (op : JobType) (j : ℕ) (t : Gen) : Type 0 where
  pub progress : Progress s t
  pub job : Job
  pub is_listed : contains j (jobs_at p t.tx) ≡ true
  pub job_at : t.tx.job j ≡ some job
  pub has_type : job.type ≡ op

abbrev pub Submits : Submit → Type 0
Submits submit =
    (p : ℕ) (op : JobType) (goal : Bool) (s : Gen) (j : ℕ) (t : Gen)
    → IsFit s
    → IsLive s.graph p
    → submit p op goal s ≡ ok (j, t)
    → Submitted s p op j t

module _ (submit : Submit) (submits : Submits submit) where
  record Followed (s : Gen) (v : Visitor) (requirer : ℕ) (name : String) (t : Gen) : Type 0 where
    pub progress : Progress s t
    pub meets : Meets t requirer v name

  follow_edge-Followed :
      (v : Visitor) (requirer : ℕ) (e : Edge) (s t : Gen)
      → IsFit s
      → Present s requirer
      → follow_edge submit v requirer e s ≡ ok t
      → Followed s v requirer e.to t
  unfolding follow_edge submit_name
  follow_edge-Followed v requirer e s t fit present run =
      let (b, _, run1) = >>=-eq-ok (load_job requirer s.tx) _ run in
      let goal = b.goal_required && v.is_required in
      let ((sj, u), submitted, run2) = >>=-eq-ok (submit_name submit e.to v.op goal s) _ run1 in
      let ((p, g), got, run3) = >>=-eq-ok (object_get e.to s.graph) _ submitted in
      let resolved = object_get-Resolves e.to s.graph p g fit.names got in
      let first = Progress-graph s e.to p g fit resolved in
      let result =
        submits p v.op goal (record s { graph = g }) sj u first.fit
          (resolved.live e.to p resolved.found) run3 in
      let last = Progress-add_req requirer sj v.is_required goal u result.progress.fit in
      let before = Progress-trans first result.progress in
      subst (Followed s v requirer e.to) (ok-injective run2) (record {
        progress = Progress-trans before last;
        meets =
            add_req-Meets requirer sj v.is_required goal u result.progress.fit v e.to p result.job
              refl (Present-grows requirer before.grows present)
              (result.progress.grows.graph.names e.to p resolved.found) result.is_listed
              result.job_at result.has_type;
      })

  -- The flag decides whether anything happens.
  pub visit_edge-Progress :
      (v : Visitor) (requirer : ℕ) (e : Edge) (s t : Gen)
      → IsFit s
      → Present s requirer
      → visit_edge submit v requirer e s ≡ ok t
      → Progress s t × (has_flag v.flag e ≡ true → Meets t requirer v e.to)
  unfolding visit_edge
  visit_edge-Progress v requirer e s t fit present run = elim (Bool-cases (has_flag v.flag e)) [
    | inl flag ↦
        let followed =
          follow_edge-Followed v requirer e s t fit present (rw (flag, visit_edge) at run) in
        (followed.progress, λ _. followed.meets)
    | inr without ↦
        let same : s ≡ t = ok-injective (rw (without, visit_edge) at run) in
        (subst (Progress s) same (Progress-refl s fit), λ flag. absurd (cc))
  ]

  pub visit_edges-Progress :
      (v : Visitor) (requirer : ℕ) (es : List Edge) (s t : Gen)
      → IsFit s
      → Present s requirer
      → visit_edges submit v requirer es s ≡ ok t
      → Progress s t × MeetsAll t requirer v es
  unfolding visit_edges
  visit_edges-Progress v requirer [] s t fit present run =
      (subst (Progress s) (ok-injective run) (Progress-refl s fit), tt)
  visit_edges-Progress v requirer (e ∷ es) s t fit present run =
      let (u, run1, run2) = >>=-eq-ok (visit_edge submit v requirer e s) _ run in
      let (first, meets) = visit_edge-Progress v requirer e s u fit present run1 in
      let (rest, others) =
        visit_edges-Progress v requirer es u t first.fit
          (Present-grows requirer first.grows present) run2 in
      (
        Progress-trans first rest,
        (λ flag. Meets-grows requirer v e.to rest.grows (meets flag), others),
      )

  run_visitors-Progress :
      (vs : List Visitor) (p requirer : ℕ) (s t : Gen)
      → IsFit s
      → IsLive s.graph p
      → Present s requirer
      → run_visitors submit vs p requirer s ≡ ok t
      → Progress s t × All (λ v. MeetsAll t requirer v (edges_of p t.graph)) vs
  unfolding run_visitors
  run_visitors-Progress [] p requirer s t fit live present run =
      (subst (Progress s) (ok-injective run) (Progress-refl s fit), tt)
  run_visitors-Progress (v ∷ vs) p requirer s t fit (o, points) present run =
      let (u, run1, run2) =
        >>=-eq-ok (visit_edges submit v requirer (edges_of p s.graph) s) _ run in
      let (first, meets) =
        visit_edges-Progress v requirer (edges_of p s.graph) s u fit present run1 in
      let (rest, others) =
        run_visitors-Progress vs p requirer u t first.fit (o, first.grows.graph.objects p o points)
          (Present-grows requirer first.grows present) run2 in
      let both = Progress-trans first rest in
      (
        both,
        (
          rw (edges_of-grows p both.grows.graph (o, points))
              (MeetsAll-grows requirer v (edges_of p s.graph) rest.grows meets),
          others,
        ),
      )

  -- The new job has its type's requirements once the visitors have run.
  new_job-IsComplete :
      (p j : ℕ) (op : JobType) (e u : Gen)
      → e.tx.job j ≡ some (new_job p op)
      → GenGrows e u
      → All (λ v. MeetsAll u j v (edges_of p u.graph)) (visitors op)
      → IsComplete u j
  unfolding new_job
  new_job-IsComplete p j op e u at grows owes b b_at =
      let (c, c_at, c_grows) = grows.tx.jobs j (new_job p op) at in
      let same : c ≡ b = cc in
      let obj : b.object ≡ p = ap (λ x. x.object) (sym same) ∙ c_grows.same_object in
      let typ : b.type ≡ op = ap (λ x. x.type) (sym same) ∙ c_grows.same_type in rw (obj, typ) owes

  submit_new-Submitted :
      (p : ℕ) (op : JobType) (goal : Bool) (s : Gen) (j : ℕ) (t : Gen)
      → IsFit s
      → IsLive s.graph p
      → submit_new submit p op goal s ≡ ok (j, t)
      → Submitted s p op j t
  unfolding submit_new new_job
  submit_new-Submitted p op goal s j t fit live run =
      let n = s.tx.next_job in
      let e = record s { tx = emplace_job p op s.tx } in
      let marked = record e { tx = mark_goal goal n e.tx } in
      let m = Progress-mark goal n e (emplaced-IsFit p op s fit live) in
      let there = emplaced-new p op s fit in
      let (u, run1, run2) = >>=-eq-ok (run_visitors submit (visitors op) p n marked) _ run in
      let (visited, owes) =
        run_visitors-Progress (visitors op) p n marked u m.fit live
          (Present-grows n m.grows (new_job p op, there)) run1 in
      let whole = Progress-trans m visited in
      let (c, c_at, c_grows) = whole.grows.tx.jobs n (new_job p op) there in
      let complete = new_job-IsComplete p n op e u there whole.grows owes in
      subst (λ x. Submitted s p op x.0 x.1) (ok-injective run2)
        (record {
          progress = record {
            grows = GenGrows-trans (emplaced-GenGrows p op s fit) whole.grows;
            fit = whole.fit;
            done = λ k at. elim (whole.done k at) [
              | inr finished ↦ inr finished
              | inl old ↦ elim (emplaced-Present p op s fit k old) [
                | inl older ↦ inl older
                | inr new ↦ inr (subst (IsComplete u) (sym new) complete)
              ]
            ];
          };
          job = c;
          is_listed = whole.grows.tx.listed p n (emplaced-is_listed p op s fit);
          job_at = c_at;
          has_type = c_grows.same_type;
        })

pub find_type-eq-some :
    (op : JobType) (js : List ℕ) (tx : Transaction) (j : ℕ)
    → find_type op js tx ≡ some j
    → (contains j js ≡ true) × ((b : Job) × (tx.job j ≡ some b) × (b.type ≡ op))
unfolding find_type
find_type-eq-some op [] tx j e = cc
find_type-eq-some op (i ∷ js) tx j e = elim (Option-cases (tx.job i)) [
  | inl absent ↦ behind (find_type-eq-some op js tx j (rw (absent, find_type) at e))
  | inr (b, at) ↦ elim (Bool-cases (same_type b.type op)) [
    | inl same ↦
        let found : some i ≡ some j = rw (at, find_type, same) at e in
        let here : i ≡ j = cc in (ground arith, (b, rw (← here) at, same_type-eq b.type op same))
    | inr other ↦ behind (find_type-eq-some op js tx j (rw (at, find_type, other) at e))
  ]
]
  where
    behind :
        (contains j js ≡ true) × ((b : Job) × (tx.job j ≡ some b) × (b.type ≡ op))
        → (contains j (i ∷ js) ≡ true) × ((b : Job) × (tx.job j ≡ some b) × (b.type ≡ op))
    behind (listed, typed) = (ground arith, typed)

pub job_submit-Submits : (fuel : ℕ) → Submits (job_submit fuel)
unfolding job_submit
job_submit-Submits zero p op goal s j t fit live run = cc
job_submit-Submits (suc fuel) p op goal s j t fit live run =
    elim (Option-cases (find_type op (jobs_at p s.tx) s.tx)) [
      | inl absent ↦
          submit_new-Submitted (job_submit fuel) (job_submit-Submits fuel) p op goal s j t fit live
            (rw (absent, job_submit) at run)
      | inr (i, found) ↦
          let (listed, (b, at, typed)) = find_type-eq-some op (jobs_at p s.tx) s.tx i found in
          let m = Progress-mark goal i s fit in
          let (c, c_at, c_grows) = m.grows.tx.jobs i b at in
          subst (λ x. Submitted s p op x.0 x.1) (ok-injective (rw (found, job_submit) at run))
            (record {
              progress = m;
              job = c;
              is_listed = m.grows.tx.listed p i listed;
              job_at = c_at;
              has_type = c_grows.same_type ∙ typed;
            })
    ]
