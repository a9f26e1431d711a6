-- ===== src/Sched/Leaves.antt =====
-- Enqueueing of a transaction returns, and runs nothing but the front transaction.
use neo_init_ware.Common.{
  ℕ, suc, ok-injective, ◌≤◌, ◌≡◌, refl, true, some, List, [], ◌∷◌, ok, >>=-runs, Bool-cases, inl,
  inr, arith,
}
use neo_init_ware.App.{Kernel}
use neo_init_ware.Tx.JobType.{JobType}
use neo_init_ware.Tx.{TaskState, unassigned, assigned, Job, Gen, modify_job}
use neo_init_ware.Tx.Generate.{new_transaction}
use neo_init_ware.Sched.{
  Scheduler, front, change_front, run_if_runnable, job_complete, assign_id, enqueue_leaves,
  tx_enqueue, same_id,
}
use neo_init_ware.Sched.Queue.{behind, queued, tx_enqueue_keeps_queue}
use neo_init_ware.Sched.Ready.{
  IsReady, IsListed, left, front_job, changed-IsReady, changed-left, live-at,
}
use neo_init_ware.Sched.Returns.{Settles, stay, reads}
use neo_init_ware.Sched.Completes.{Completes, run_if_runnable-Settles, job_complete-Settles}

-- Every object of the map has a job, all of them in `m`.
abbrev pub IsFull : (m entries : List (ℕ × List ℕ)) → Type 0
IsFull m [] = Unit {0}
IsFull m ((p, []) ∷ rest) = ⊥
IsFull m ((p, j ∷ js) ∷ rest) = IsListed j m × IsFull m rest

module _ (kernel : Kernel) (willing : (n : ℕ) → kernel n ≡ true) (m : List (ℕ × List ℕ)) where
  assign_id-Settles :
      (j : ℕ) (b : Job) (s : Scheduler)
      → IsReady m s
      → IsListed j m
      → front_job j s ≡ some b
      → Settles m s (ok (assign_id j b s))
  unfolding assign_id
  assign_id-Settles j b s ready listed at = elim (Bool-cases (same_id b.id unassigned)) [
    | inr has ↦ rw has (stay m s ready)
    | inl new ↦
        let f = λ (x : Job). record x { id = assigned s.last_jobid } in
        let u = change_front (modify_job j f) (record s { last_jobid = suc s.last_jobid }) in
        let (named, below) = live-at ready j b listed at in
        let less = changed-left m s u j f ready b at named refl 0 below (omega arith) in
        rw new (record {
          out = u;
          runs = refl;
          ready = changed-IsReady m s u j f ready b at named refl;
          fewer = omega (arith, less);
        })
  ]

  pub enqueue_leaves-Settles :
      (fuel : ℕ) (entries : List (ℕ × List ℕ)) (s : Scheduler)
      → IsReady m s
      → IsFull m entries
      → left s ≤ fuel
      → Settles m s (enqueue_leaves kernel fuel entries s)
  unfolding enqueue_leaves
  enqueue_leaves-Settles fuel [] s ready full few = stay m s ready
  enqueue_leaves-Settles fuel ((p, []) ∷ rest) s ready full few = absurd full
  enqueue_leaves-Settles fuel ((p, j ∷ js) ∷ rest) s ready (listed, full) few =
      let (b, at, named, below) = ready.live j listed in
      let inner : Completes m (job_complete kernel fuel) fuel = λ id k u ready' waits runs few'.
        (job_complete-Settles kernel willing m fuel id TaskState.success k u ready' waits runs refl
          few').0 in
      let given = assign_id-Settles j b s ready listed at in
      let one =
        run_if_runnable-Settles kernel willing m (job_complete kernel fuel) fuel inner j given.out
          given.ready listed (omega (arith, given.fewer)) in
      let others =
        enqueue_leaves-Settles fuel rest one.out one.ready full
          (omega (arith, given.fewer, one.fewer)) in
      record {
        out = others.out;
        runs = reads m s j b _ ready at (
            >>=-runs (run_if_runnable kernel (job_complete kernel fuel) j (assign_id j b s)) _
              (rw (ok-injective given.runs) one.runs) others.runs);
        ready = others.ready;
        fewer = omega (arith, given.fewer, one.fewer, others.fewer);
      }

module _ (kernel : Kernel) (willing : (n : ℕ) → kernel n ≡ true) (m : List (ℕ × List ℕ)) (p : ℕ)
    (op : JobType) (s : Scheduler) (made : Gen) (is_made : new_transaction p op s.graph ≡ ok made)
    (ready : IsReady m (queued s made)) (full : IsFull m m) where
  tx_enqueue-Settles : Settles m (queued s made) (tx_enqueue kernel (left (queued s made)) p op s)
  unfolding tx_enqueue
  tx_enqueue-Settles =
      let u = queued s made in
      let r = enqueue_leaves-Settles kernel willing m (left u) m u ready full (omega arith) in
      record {
        out = r.out;
        runs = >>=-runs (new_transaction p op s.graph) _ is_made (
            >>=-runs (front u) _ {x = ready.first} (rw ready.queue refl)
              (rw ready.jobs_are r.runs));
        ready = r.ready;
        fewer = r.fewer;
      }

-- Where a transaction is generated and the kernel accepts every timer, and the transaction at the
-- front, once the new one is in the queue, has live jobs of loggable types and a job for each of
-- its objects, `tx_enqueue` returns within as much fuel as completions are left. The front
-- transaction can still be run, and what stands behind it is as it was queued: if a transaction
-- was there already, the new one is last, just as it was generated, and none of its jobs is run
-- or given an id.
pub tx_enqueue_returns :
    (kernel : Kernel) (m : List (ℕ × List ℕ)) (p : ℕ) (op : JobType) (s : Scheduler) (made : Gen)
    → ((n : ℕ) → kernel n ≡ true)
    → new_transaction p op s.graph ≡ ok made
    → IsReady m (queued s made)
    → IsFull m m
    → (t : Scheduler) × (tx_enqueue kernel (left (queued s made)) p op s ≡ ok t)
      × IsReady m t
      × (left t ≤ left (queued s made))
      × (behind t ≡ behind (queued s made))
tx_enqueue_returns kernel m p op s made willing is_made ready full =
    let r = tx_enqueue-Settles kernel willing m p op s made is_made ready full in
    let keeps =
      tx_enqueue_keeps_queue kernel (left (queued s made)) p op s r.out made is_made r.runs in
    (r.out, r.runs, r.ready, r.fewer, keeps)
