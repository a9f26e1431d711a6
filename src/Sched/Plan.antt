-- ===== src/Sched/Plan.antt =====
-- Runs of the scheduler as steps: the completion of a job, and the enqueueing of a transaction.
use neo_init_ware.Common.{
  ℕ, zero, suc, ◌≡◌, ◌∙◌, sym, ap, refl, subst, true, some, List, [], ◌∷◌, ok, >>=-eq-ok,
  ok-injective, inl, inr, Bool-cases, arith,
}
use neo_init_ware.App.{Kernel}
use neo_init_ware.Objects.{Graph}
use neo_init_ware.Tx.JobType.{JobType}
use neo_init_ware.Tx.{
  TaskState, TaskId, unassigned, assigned, Job, Gen, Transaction, load_job, modify_job,
}
use neo_init_ware.Tx.Generate.{new_transaction}
use neo_init_ware.Sched.{
  Scheduler, front, change_front, record_result, run_if_runnable, restart_as_start, job_complete,
  running_job, edges_to_of, log_job_complete, same_id, assign_id, enqueue_leaves, tx_enqueue,
  has_ended,
}
use neo_init_ware.Sched.Queue.{queued}
use neo_init_ware.Sched.Ready.{IsReady, left}
use neo_init_ware.Sched.Returns.{IsWaiting}
use neo_init_ware.Sched.Completes.{job_complete_returns}
use neo_init_ware.Sched.Leaves.{IsFull, tx_enqueue_returns}
use neo_init_ware.Sched.Seen.{
  see, see_job, amend, view, front_view, set_job-view, become, succeeds, Steps, no_step, step,
  front-queue,
}
use neo_init_ware.Sched.Runnable.{load_job-at}
use neo_init_ware.Sched.Refines.{
  Refines, Refines-then, Refines-quiet, CompletesInSteps, run_if_runnable-Refines,
  start_others-Refines, restart_as_start-Refines,
}

module _ (g : Graph) (kernel : Kernel) where
  -- From the job's result on, everything is a step.
  record Reports (j : ℕ) (res : TaskState) (s t : Scheduler) : Type 0 where
    pub graph_is : t.graph ≡ g
    pub steps : Steps g (amend j (become res) (front_view s)) (front_view t)

  -- What `record_result` changes.
  record Ended (j : ℕ) (res : TaskState) (b : Job) (s u : Scheduler) : Type 0 where
    pub graph_is : u.graph ≡ g
    pub first : Transaction
    pub is_front : front u ≡ ok first
    pub now : front_view u ≡ amend j (become res) (front_view s)
    pub seen_at : (front_view u).seen j ≡ some (become res (see b))

  record_result-Ended :
      (id : TaskId) (res : TaskState) (j : ℕ) (b : Job) (s u : Scheduler) (tx : Transaction)
      → s.graph ≡ g
      → front s ≡ ok tx
      → tx.job j ≡ some b
      → record_result kernel id res j b s ≡ ok u
      → Ended j res b s u
  unfolding record_result
  record_result-Ended id res j b s u tx graph_is is_front at run =
      let ended = record b { state = res } in
      let (x, logged, made) = >>=-eq-ok (log_job_complete ended) _ run in
      let same = ok-injective made in
      let (txs, queue) = front-queue s tx is_front in
      let now_queue : u.transactions ≡ modify_job j (λ _. ended) tx ∷ txs =
        rw (← same) (rw queue refl) in
      let seen : view (modify_job j (λ _. ended) tx) ≡ amend j (become res) (view tx) =
        set_job-view j b ended (become res) tx at refl in
      let now : front_view u ≡ amend j (become res) (front_view s) = rw (now_queue, queue) seen in
      let there : (modify_job j (λ _. ended) tx).job j ≡ some ended = ground arith in
      record {
        graph_is = rw (← same) graph_is;
        first = modify_job j (λ _. ended) tx;
        is_front = rw now_queue refl;
        now = now;
        seen_at = rw now_queue (ap see_job there);
      }

  job_complete-Reports :
      (fuel : ℕ) (id : TaskId) (res : TaskState) (j : ℕ) (s t : Scheduler)
      → s.graph ≡ g
      → running_job id s.running_jobs ≡ some j
      → job_complete kernel fuel id res s ≡ ok t
      → Reports j res s t
  unfolding job_complete
  job_complete-Reports zero id res j s t graph_is runs run = cc
  job_complete-Reports (suc fuel) id res j s t graph_is runs run =
      let complete = job_complete kernel fuel in
      let inner : CompletesInSteps g kernel complete = λ id' k v w graph_v runs' may run'.
        let r = job_complete-Reports fuel id' TaskState.success k v w graph_v runs' run' in
        record { graph_is = r.graph_is; steps = step (succeeds k may) r.steps } in
      let (tx, is_front, run1) = >>=-eq-ok (front s) _ (rw (runs, job_complete) at run) in
      let (b, is_job, run2) = >>=-eq-ok (load_job j tx) _ run1 in
      let (s1, recorded, run3) = >>=-eq-ok (record_result kernel id res j b s) _ run2 in
      let (s2, restarted, run4) = >>=-eq-ok (restart_as_start kernel complete res j b s1) _ run3 in
      let e =
        record_result-Ended id res j b s s1 tx graph_is is_front (load_job-at j tx b is_job)
          recorded in
      let again =
        restart_as_start-Refines g kernel complete inner res j b s1 s2 e.first (become res (see b))
          e.graph_is e.is_front e.seen_at refl refl restarted in
      let others =
        start_others-Refines g kernel complete inner (edges_to_of b.object s2.graph) s2 t
          again.graph_is run4 in
      let both = Refines-then g again others in
      record {
        graph_is = both.graph_is;
        steps = subst (λ v. Steps g v (front_view t)) e.now both.steps;
      }

  completes_in_steps : (fuel : ℕ) → CompletesInSteps g kernel (job_complete kernel fuel)
  completes_in_steps fuel id j s t graph_is runs may run =
      let r = job_complete-Reports fuel id TaskState.success j s t graph_is runs run in
      record { graph_is = r.graph_is; steps = step (succeeds j may) r.steps }

  assign_id-Refines :
      (j : ℕ) (b : Job) (s : Scheduler) (tx : Transaction)
      → s.graph ≡ g
      → front s ≡ ok tx
      → Refines g s (assign_id j b s)
  unfolding assign_id
  assign_id-Refines j b s tx graph_is is_front = elim (Bool-cases (same_id b.id unassigned)) [
    | inr has ↦ rw has (record { graph_is = graph_is; steps = no_step })
    | inl new ↦
        let f = λ (x : Job). record x { id = assigned s.last_jobid } in
        let u = change_front (modify_job j f) (record s { last_jobid = suc s.last_jobid }) in
        let unseen = Refines-quiet g s u tx j f (λ x. refl) is_front graph_is refl in
        let stays : Refines g s u = record {
          graph_is = graph_is;
          steps = subst (Steps g (front_view s)) (sym unseen) no_step;
        } in
        rw new stays
  ]

  enqueue_leaves-Refines :
      (fuel : ℕ) (entries : List (ℕ × List ℕ)) (s t : Scheduler)
      → s.graph ≡ g
      → enqueue_leaves kernel fuel entries s ≡ ok t
      → Refines g s t
  unfolding enqueue_leaves
  enqueue_leaves-Refines fuel [] s t graph_is run =
      let same : s ≡ t = ok-injective run in
      rw (← same) (record { graph_is = graph_is; steps = no_step })
  enqueue_leaves-Refines fuel ((p, []) ∷ entries) s t graph_is run = cc
  enqueue_leaves-Refines fuel ((p, j ∷ js) ∷ entries) s t graph_is run =
      let (tx, is_front, run1) = >>=-eq-ok (front s) _ run in
      let (b, is_job, run2) = >>=-eq-ok (load_job j tx) _ run1 in
      let (u, one, later) =
        >>=-eq-ok (run_if_runnable kernel (job_complete kernel fuel) j (assign_id j b s)) _ run2 in
      let named = assign_id-Refines j b s tx graph_is is_front in
      let tried =
        run_if_runnable-Refines g kernel (job_complete kernel fuel) (completes_in_steps fuel) j
          (assign_id j b s) u named.graph_is one in
      Refines-then g named
        (Refines-then g tried (enqueue_leaves-Refines fuel entries u t tried.graph_is later))

-- Where the kernel accepts every timer, and the listed jobs of the front transaction are live and of
-- types that the log has a word for, the completion of a running job that still awaits its result,
-- with a result that is an end (neither awaiting nor running), returns, and what can be seen of the front transaction afterwards is reached by steps from what was
-- there before with the result in the job's place: each step is a job that succeeds once it awaits its
-- run and every job that it has to wait for has succeeded, or a restart job that has succeeded and
-- awaits its run as a start job.
pub job_complete_refines :
    (kernel : Kernel) (m : List (ℕ × List ℕ)) (id : TaskId) (res : TaskState) (j : ℕ)
    (s : Scheduler)
    → ((n : ℕ) → kernel n ≡ true)
    → IsReady m s
    → IsWaiting m j s
    → running_job id s.running_jobs ≡ some j
    → has_ended res ≡ true
    → (t : Scheduler) × (job_complete kernel (left s) id res s ≡ ok t)
      × Steps s.graph (amend j (become res) (front_view s)) (front_view t)
job_complete_refines kernel m id res j s willing ready waits runs ends =
    let (t, run, ready_t, fewer, kept) =
      job_complete_returns kernel m id res j s willing ready waits runs ends in
    (t, run, (job_complete-Reports s.graph kernel (left s) id res j s t refl runs run).steps)

-- Where a transaction is generated and the kernel accepts every timer, and the transaction at the
-- front, once the new one is in the queue, has live jobs of loggable types and a job for each of
-- its objects, `tx_enqueue` returns, and what can be seen of the front transaction afterwards is
-- reached by the same steps from what was queued.
pub tx_enqueue_refines :
    (kernel : Kernel) (m : List (ℕ × List ℕ)) (p : ℕ) (op : JobType) (s : Scheduler) (made : Gen)
    → ((n : ℕ) → kernel n ≡ true)
    → new_transaction p op s.graph ≡ ok made
    → IsReady m (queued s made)
    → IsFull m m
    → (t : Scheduler) × (tx_enqueue kernel (left (queued s made)) p op s ≡ ok t)
      × Steps made.graph (front_view (queued s made)) (front_view t)
unfolding tx_enqueue
tx_enqueue_refines kernel m p op s made willing is_made ready full =
    let (t, run, ready_t, fewer, kept) =
      tx_enqueue_returns kernel m p op s made willing is_made ready full in
    let (made', is_made', run1) = >>=-eq-ok (new_transaction p op s.graph) _ run in
    let same : made' ≡ made = ok-injective (sym is_made' ∙ is_made) in
    let (tx, is_front, run2) = >>=-eq-ok (front (queued s made')) _ run1 in
    let leaves : enqueue_leaves kernel (left (queued s made)) tx.jobs (queued s made) ≡ ok t =
      rw same at run2 in
    (
      t,
      run,
      (enqueue_leaves-Refines made.graph kernel (left (queued s made)) tx.jobs (queued s made) t
          refl leaves).steps,
    )
