-- ===== src/Sched/Drained.antt =====
-- After a transaction has been enqueued no first job of an object that may run is left, and where no
-- object waits for itself all of them have succeeded.
use neo_init_ware.Common.{
  ℕ, suc, ◌≡◌, ◌∙◌, ◌||◌, sym, ap, refl, true, false, some, List, [], ◌∷◌, ok, >>=-eq-ok,
  ok-injective, inl, inr, Bool-cases, arith,
}
use neo_init_ware.App.{Kernel}
use neo_init_ware.Objects.{Graph, Edge}
use neo_init_ware.Objects.Edges.{Owns}
use neo_init_ware.Tx.{TaskState, unassigned, assigned, Job, Gen, Transaction, load_job, modify_job}
use neo_init_ware.Tx.JobType.{JobType}
use neo_init_ware.Tx.Generate.{new_transaction}
use neo_init_ware.Tx.Submit.{edges_of}
use neo_init_ware.Sched.{
  Scheduler, front, change_front, run_if_runnable, job_complete, assign_id, enqueue_leaves,
  tx_enqueue, same_id, is_success, is_awaiting, job_runnable, none_blocks,
}
use neo_init_ware.Sched.Runnable.{
  HeldBack, blocks-HeldBack, is_awaiting-state, is_success-state, load_job-at,
}
use neo_init_ware.Sched.Queue.{queued}
use neo_init_ware.Sched.Ready.{IsReady, left}
use neo_init_ware.Sched.Leaves.{IsFull, tx_enqueue_returns}
use neo_init_ware.Sched.Placed.{IsHead, IsPlaced, IsMirrored, may_run-at}
use neo_init_ware.Sched.Changes.{none_blocks-false}
use neo_init_ware.Sched.Calm.{
  Calms, calm_stay, calm_then, calm_weaken, quiet-Calms, read_front, front_may_run-at,
  run_if_runnable-Calms,
}
use neo_init_ware.Sched.Relay.{job_complete-Calms}

module _ (g : Graph) (m : List (ℕ × List ℕ)) (mirrored : IsMirrored g m) (kernel : Kernel)
    (fuel : ℕ) where
  assign_id-Calms :
      (p j : ℕ) (b : Job) (s : Scheduler) (placed : IsPlaced g m s)
      → IsHead p j m
      → placed.first.job j ≡ some b
      → Calms g m (λ _. ⊥) s (assign_id j b s)
  unfolding assign_id
  assign_id-Calms p j b s placed head at = elim (Bool-cases (same_id b.id unassigned)) [
    | inr has ↦ rw has (calm_stay g m s placed)
    | inl new ↦
        let f = λ (x : Job). record x { id = assigned s.last_jobid } in
        let u = change_front (modify_job j f) (record s { last_jobid = suc s.last_jobid }) in
        rw new
          (quiet-Calms g m s u j f placed b at (λ x. refl) (λ x. refl) (λ x. refl) p head refl refl)
  ]

  -- The map's entries, which are tried in turn.
  enqueue_leaves-Calms :
      (entries : List (ℕ × List ℕ)) (s t : Scheduler)
      → ((p k : ℕ) → IsHead p k entries → IsHead p k m)
      → IsPlaced g m s
      → enqueue_leaves kernel fuel entries s ≡ ok t
      → Calms g m (λ k. (p : ℕ) × IsHead p k entries) s t
  unfolding enqueue_leaves
  enqueue_leaves-Calms [] s t among placed run =
      let same : s ≡ t = ok-injective run in
      rw (← same) (calm_weaken g m (λ k h. h.1) (calm_stay g m s placed))
  enqueue_leaves-Calms ((p, []) ∷ entries) s t among placed run = cc
  enqueue_leaves-Calms ((p, j ∷ js) ∷ entries) s t among placed run =
      let (tx, is_front, run1) = >>=-eq-ok (front s) _ run in
      let (b, is_job, run2) = >>=-eq-ok (load_job j tx) _ run1 in
      let (u, one, later) =
        >>=-eq-ok (run_if_runnable kernel (job_complete kernel fuel) j (assign_id j b s)) _ run2 in
      let at : placed.first.job j ≡ some b =
        rw (read_front g m s tx placed is_front) (load_job-at j tx b is_job) in
      let head = among p j (inl (refl, refl)) in
      let named = assign_id-Calms p j b s placed head at in
      let tried =
        run_if_runnable-Calms g m kernel (job_complete kernel fuel)
          (job_complete-Calms g m kernel fuel mirrored) p j (assign_id j b s) u named.placed head
          one in
      let rest = enqueue_leaves-Calms entries u t (λ q k h. among q k (inr h)) tried.placed later in
      calm_weaken g m
        (λ k h.
          let (q, h') = h in
          elim h' [ inl first ↦ inl (inr first.1) | inr later' ↦ inr (q, later') ])
        (calm_then g m (calm_then g m named tried) rest)

-- A first job that may no longer run has succeeded, or waits for one that has not.
pub data Rests (g : Graph) (p : ℕ) (tx : Transaction) (b : Job) : Type 0 where
  has_succeeded : b.state ≡ TaskState.success → Rests g p tx b
  is_held :
      b.state ≡ TaskState.awaiting
      → (e : Edge) → Owns e (edges_of p g)
      → HeldBack g tx e
      → Rests g p tx b

-- The front transaction, in which every first job rests.
pub record IsDrained (g : Graph) (m : List (ℕ × List ℕ)) (s : Scheduler) : Type 0 where
  pub first : Transaction
  pub others : List Transaction
  pub queue : s.transactions ≡ first ∷ others
  pub jobs_are : first.jobs ≡ m
  pub rests : (p k : ℕ) → IsHead p k m → (b : Job) × (first.job k ≡ some b) × Rests g p first b

idle-Rests :
    (g : Graph) (tx : Transaction) (p : ℕ) (b : Job)
    → b.object ≡ p
    → (is_awaiting b.state || is_success b.state) ≡ true
    → job_runnable g tx b ≡ false
    → Rests g p tx b
unfolding job_runnable
idle-Rests g tx p b home fit idle = elim (Bool-cases (is_success b.state)) [
  | inl done ↦ has_succeeded (is_success-state b.state done)
  | inr not_succeeded ↦
      let waits : is_awaiting b.state ≡ true = ground arith in
      let held : none_blocks g tx (edges_of b.object g) ≡ false = ground arith in
      let (e, owns, stops) = none_blocks-false g tx (edges_of b.object g) held in
      is_held (is_awaiting-state b.state waits) e (rw (← home) owns) (blocks-HeldBack g tx e stops)
]

Calms-IsDrained :
    (g : Graph) (m : List (ℕ × List ℕ)) (s t : Scheduler)
    → Calms g m (λ k. (p : ℕ) × IsHead p k m) s t
    → IsDrained g m t
Calms-IsDrained g m s t calms =
    let placed = calms.placed in
    record {
      first = placed.first;
      others = placed.others;
      queue = placed.queue;
      jobs_are = placed.jobs_are;
      rests = λ p k head.
          let (b, at, home, fit) = placed.homed p k head in
          let reads =
            front_may_run-at g k t placed.first placed.others placed.queue
            ∙ may_run-at g placed.first k b at in
          (
            b,
            at,
            idle-Rests g placed.first p b home fit
                (elim (Bool-cases (job_runnable g placed.first b)) [
                  | inl may ↦ absurd ((calms.calm p k head (reads ∙ may)).1 (p, head))
                  | inr idle ↦ idle
                ]),
          );
    }

-- Where a transaction is generated and the kernel accepts every timer, and the transaction at the
-- front, once the new one is in the queue, has live jobs of loggable types and a job for each of
-- its objects, the first job of every object is of that object and awaits its run or has
-- succeeded, and every After edge between two of these objects is recorded at its target too,
-- `tx_enqueue` returns, and the first job of each object has succeeded or waits, for an edge of
-- its object, for a job that has not: no job that may run is left.
pub tx_enqueue_drains :
    (kernel : Kernel) (m : List (ℕ × List ℕ)) (p : ℕ) (op : JobType) (s : Scheduler) (made : Gen)
    → ((n : ℕ) → kernel n ≡ true)
    → new_transaction p op s.graph ≡ ok made
    → IsReady m (queued s made)
    → IsFull m m
    → IsPlaced made.graph m (queued s made)
    → IsMirrored made.graph m
    → (t : Scheduler) × (tx_enqueue kernel (left (queued s made)) p op s ≡ ok t)
      × IsDrained made.graph m t
unfolding tx_enqueue
tx_enqueue_drains kernel m p op s made willing is_made ready full placed mirrored =
    let (t, runs, ready_t, fewer, kept) =
      tx_enqueue_returns kernel m p op s made willing is_made ready full in
    let (made', is_made', run1) = >>=-eq-ok (new_transaction p op s.graph) _ runs in
    let same : made' ≡ made = ok-injective (sym is_made' ∙ is_made) in
    let (tx, is_front, run2) = >>=-eq-ok (front (queued s made')) _ run1 in
    let jobs : tx.jobs ≡ m =
      ap (λ x. x.jobs)
        (sym (read_front made.graph m (queued s made) tx placed (rw same at is_front)))
      ∙ placed.jobs_are in
    let leaves : enqueue_leaves kernel (left (queued s made)) m (queued s made) ≡ ok t =
      rw (jobs, same) at run2 in
    (
      t,
      runs,
      Calms-IsDrained made.graph m (queued s made) t (
          enqueue_leaves-Calms made.graph m mirrored kernel (left (queued s made)) m (queued s made)
            t (λ q k h. h) placed leaves),
    )
