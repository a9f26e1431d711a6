-- ===== src/Sched/Relay.antt =====
-- The completion of a job releases nothing: what awaited the job is tried before the call returns.
use neo_init_ware.Common.{
  ℕ, zero, suc, ◌≡◌, ◌∙◌, ◌⊎◌, ap, refl, subst, true, false, some, List, [], ◌∷◌, ok, >>=-eq-ok,
  ok-injective, inl, inr, Bool-cases, if◌then◌else◌, arith,
}
use neo_init_ware.App.{Kernel}
use neo_init_ware.Objects.{Graph, Edge, has_flag}
use neo_init_ware.Objects.EdgeType
use neo_init_ware.Objects.Edges.{Owns}
use neo_init_ware.Tx.JobType.{same_type, start, restart}
use neo_init_ware.Tx.{TaskState, TaskId, Job, Transaction, job_for_name_in, load_job, modify_job}
use neo_init_ware.Sched.{
  Scheduler, Complete, front, change_front, record_result, start_other, start_others,
  restart_as_start, job_complete, edges_to_of, log_job_complete, job_runnable,
}
use neo_init_ware.Sched.Placed.{IsHead, IsPlaced, IsMirrored, Awaits, Wakes, may_run-at}
use neo_init_ware.Sched.Changes.{changed-IsPlaced}
use neo_init_ware.Sched.Runnable.{load_job-at}
use neo_init_ware.Sched.Calm.{
  Calms, CompletesCalmly, calm_stay, calm_then, calm_weaken, released, read_front, front_may_run,
  front_may_run-at, run_if_runnable-Calms, start_other-Calms,
}

-- One of the After edges comes from the name of an object whose first job is `k`.
abbrev Tries : Graph → List (ℕ × List ℕ) → List Edge → ℕ → Type 0
Tries g m es k =
    (e : Edge) × Owns e es
    × (has_flag EdgeType.after e ≡ true)
    × (job_for_name_in g e.from m ≡ some k)

Wakes-Tries :
    (g : Graph) (m : List (ℕ × List ℕ)) (q k p : ℕ) (h : Graph)
    → p ≡ q
    → h ≡ g
    → Wakes g m q k
    → Tries g m (edges_to_of p h) k
Wakes-Tries g m q k p h home graph_is w = (w.edge, rw (home, graph_is) w.owns, w.is_after, w.found)

changed_there :
    (tx : Transaction) (j : ℕ) (b c : Job)
    → tx.job j ≡ some b
    → (modify_job j (λ _. c) tx).job j ≡ some c
changed_there tx j b c at = ground arith

module _ (g : Graph) (m : List (ℕ × List ℕ)) (kernel : Kernel) (complete : Complete)
    (completes : CompletesCalmly g m kernel complete) where
  start_others-Calms :
      (es : List Edge) (s t : Scheduler)
      → IsPlaced g m s
      → start_others kernel complete es s ≡ ok t
      → Calms g m (Tries g m es) s t
  unfolding start_others
  start_others-Calms [] s t placed run =
      let same : s ≡ t = ok-injective run in
      rw (← same) (
        calm_weaken g m (λ k h. let (x, owns, after, found) = h in absurd owns)
          (calm_stay g m s placed))
  start_others-Calms (e ∷ es) s t placed run =
      let (u, one, later) =
        >>=-eq-ok (if has_flag EdgeType.after e then start_other kernel complete e s else ok s) _
          run in
      elim (Bool-cases (has_flag EdgeType.after e)) [
        | inl orders ↦
            let first =
              start_other-Calms g m kernel complete completes e s u placed (rw orders at one) in
            let rest = start_others-Calms es u t first.placed later in
            calm_weaken g m
              (λ k h.
                let (x, owns, after, found) = h in
                elim owns [
                  | inl same ↦ inl (subst (λ y. job_for_name_in g y.from m ≡ some k) same found)
                  | inr there ↦ inr (x, there, after, found)
                ])
              (calm_then g m first rest)
        | inr plain ↦
            let same : s ≡ u = ok-injective (rw plain at one) in
            let rest = start_others-Calms es u t (rw (← same) placed) later in
            rw same (
              calm_weaken g m
                (λ k h.
                  let (x, owns, after, found) = h in
                  elim owns [
                    | inl here ↦ absurd (cc (after, plain, ap (has_flag EdgeType.after) here))
                    | inr there ↦ (x, there, after, found)
                  ])
                rest)
      ]

  -- What the step that follows the record of a result leaves to the jobs that await `j`.
  record Recovers (j : ℕ) (s t : Scheduler) : Type 0 where
    pub placed : IsPlaced g m t
    pub recovers :
        (p k : ℕ)
        → IsHead p k m
        → front_may_run g k t ≡ true
        → (¬ (k ≡ j)) × ((front_may_run g k s ≡ true) ⊎ Awaits g m p j)

  -- A job that has succeeded may not run.
  succeeded_stays :
      (s : Scheduler) (j : ℕ) (b : Job) (first : Transaction) (others : List Transaction)
      → s.transactions ≡ first ∷ others
      → first.job j ≡ some b
      → b.state ≡ TaskState.success
      → front_may_run g j s ≡ false
  unfolding job_runnable
  succeeded_stays s j b first others queue at done =
      front_may_run-at g j s first others queue
      ∙ may_run-at g first j b at
      ∙ rw (done, job_runnable) refl

  recorded-Recovers :
      (id : TaskId) (p j : ℕ) (b : Job) (s u : Scheduler) (placed : IsPlaced g m s)
      → placed.first.job j ≡ some b
      → record_result kernel id TaskState.success j b s ≡ ok u
      → Recovers j s u
  unfolding record_result
  recorded-Recovers id p j b s u placed at run =
      let ended = record b { state = TaskState.success } in
      let (x, logged, made) = >>=-eq-ok (log_job_complete ended) _ run in
      let same = ok-injective made in
      let same_graph : u.graph ≡ s.graph = rw (← same) refl in
      let queue : u.transactions ≡ (change_front (modify_job j (λ _. ended)) s).transactions =
        rw (← same) refl in
      let placed_u =
        changed-IsPlaced g m s u j (λ _. ended) placed b at refl refl same_graph queue in
      let first = modify_job j (λ _. ended) placed.first in
      let at_u : first.job j ≡ some ended = changed_there placed.first j b ended at in
      let done =
        succeeded_stays u j ended first placed.others (queue ∙ rw placed.queue refl) at_u refl in
      record {
        placed = placed_u;
        recovers = λ q k head may.
            let other : ¬ (k ≡ j) = λ e. cc (rw e at may, done) in
            (
              other,
              elim (released g m s u j (λ _. ended) placed queue q k head may) [
                | inl could ↦ inl could
                | inr (inl same_job) ↦ absurd (other same_job)
                | inr (inr awaits) ↦ inr awaits
              ],
            );
      }

  restarted-Recovers :
      (p j : ℕ) (b : Job) (s u t : Scheduler)
      → IsHead p j m
      → Recovers j s u
      → restart_as_start kernel complete TaskState.success j b u ≡ ok t
      → Recovers j s t
  unfolding restart_as_start
  restarted-Recovers p j b s u t head rec run = elim (Bool-cases (same_type b.type restart)) [
    | inr other ↦ let same : u ≡ t = ok-injective (rw other at run) in rw (← same) rec
    | inl restarts ↦
        let f = λ (x : Job). record x { type = start; state = TaskState.awaiting } in
        let again = change_front (modify_job j f) u in
        let (c, c_at, home, fit) = rec.placed.homed p j head in
        let placed_a = changed-IsPlaced g m u again j f rec.placed c c_at refl refl refl refl in
        let did =
          run_if_runnable-Calms g m kernel complete completes p j again t placed_a head
            (rw restarts at run) in
        record {
          placed = did.placed;
          recovers = λ q k head' may.
              let (may_a, other) = did.calm q k head' may in
              (
                other,
                elim (released g m u again j f rec.placed refl q k head' may_a) [
                  | inl could ↦ (rec.recovers q k head' could).1
                  | inr (inl same_job) ↦ absurd (other same_job)
                  | inr (inr awaits) ↦ inr awaits
                ],
              );
        }
  ]

pub job_complete-Calms :
    (g : Graph) (m : List (ℕ × List ℕ)) (kernel : Kernel) (fuel : ℕ)
    → IsMirrored g m
    → CompletesCalmly g m kernel (job_complete kernel fuel)
unfolding job_complete
job_complete-Calms g m kernel zero mirrored id p j s t placed head runs run = cc
job_complete-Calms g m kernel (suc fuel) mirrored id p j s t placed head runs run =
    let complete = job_complete kernel fuel in
    let completes = job_complete-Calms g m kernel fuel mirrored in
    let (tx, is_front, run1) = >>=-eq-ok (front s) _ (rw (runs, job_complete) at run) in
    let (b, is_job, run2) = >>=-eq-ok (load_job j tx) _ run1 in
    let (s1, recorded, run3) = >>=-eq-ok (record_result kernel id TaskState.success j b s) _ run2 in
    let (s2, restarted, run4) =
      >>=-eq-ok (restart_as_start kernel complete TaskState.success j b s1) _ run3 in
    let at : placed.first.job j ≡ some b =
      rw (read_front g m s tx placed is_front) (load_job-at j tx b is_job) in
    let (c, c_at, home, fit) = placed.homed p j head in
    let b_home : b.object ≡ p = cc (c_at, at, home) in
    let rec = recorded-Recovers g m kernel complete completes id p j b s s1 placed at recorded in
    let rec2 = restarted-Recovers g m kernel complete completes p j b s s1 s2 head rec restarted in
    let all =
      start_others-Calms g m kernel complete completes (edges_to_of b.object s2.graph) s2 t
        rec2.placed run4 in
    record {
      placed = all.placed;
      calm = λ q k head' may.
          let (may2, untried) = all.calm q k head' may in
          let (other, before) = rec2.recovers q k head' may2 in
          elim before [
            | inl could ↦ (could, other)
            | inr awaits ↦
                let w = mirrored q k p j head' head awaits in
                absurd
                  (untried (Wakes-Tries g m p k b.object s2.graph b_home rec2.placed.graph_is w))
          ];
    }
