-- ===== src/Entry/Starts.antt =====
-- The daemon starts the default target, and the engine's jobs are run until none is left.
use neo_init_ware.Common.{ℕ, zero, suc, ◌<◌, ◌≡◌, refl, List, Result, ok, some, arith}
use neo_init_ware.Objects.{Graph, object_get}
use neo_init_ware.Tx.{TaskState, Job, Gen, Transaction}
use neo_init_ware.Tx.JobType.{start}
use neo_init_ware.Tx.Generate.{new_transaction}
use neo_init_ware.Tx.Order.Walks.{OnCycle}
use neo_init_ware.Sched.{Scheduler}
use neo_init_ware.Sched.Queue.{queued}
use neo_init_ware.Sched.Ready.{IsReady, front_job, left}
use neo_init_ware.Sched.Leaves.{IsFull}
use neo_init_ware.Sched.Placed.{IsHead, IsPlaced, IsMirrored}
use neo_init_ware.Sched.Succeeds.{IsNamed}
use neo_init_ware.Entry.{Executed, raised, idle, ran, after_job, run_pending_jobs}

module _ {Q : Type 0} (execute_pending_job : Q → Executed × Q) (get_exception : Q → Q)
    (pending : Q → ℕ) where
  -- What the engine promises of a call: it finds no job, or runs one, and its jobs come to an end.
  pub data Executes (q : Q) : Type 0 where
    finds_none : (q' : Q) → execute_pending_job q ≡ (idle, q') → Executes q
    runs_one : (q' : Q) → execute_pending_job q ≡ (ran, q') → pending q' < pending q → Executes q
    raises :
        (q' : Q)
        → execute_pending_job q ≡ (raised, q')
        → pending (get_exception q') < pending q
        → Executes q

  Settled : ℕ → Q → Type 0
  Settled fuel q =
      (r : Q) × (run_pending_jobs execute_pending_job get_exception fuel q ≡ ok r)
      × ((before : Q) × (execute_pending_job before ≡ (idle, r)))

  run_pending_jobs-Settled :
      ((q : Q) → Executes q) → (fuel : ℕ) (q : Q) → pending q < fuel → Settled fuel q
  unfolding Settled run_pending_jobs after_job
  run_pending_jobs-Settled executes zero q few = absurd (omega (arith, few))
  run_pending_jobs-Settled executes (suc fuel) q few = elim (executes q) [
    | finds_none q' found ↦ (q', rw found refl, (q, found))
    | runs_one q' found less ↦
        let (r, runs, last) =
          run_pending_jobs-Settled executes fuel q' (omega (arith, few, less)) in
        (r, rw found runs, last)
    | raises q' found less ↦
        let (r, runs, last) =
          run_pending_jobs-Settled executes fuel (get_exception q') (omega (arith, few, less)) in
        (r, rw found runs, last)
  ]

-- Where every call of the engine finds no job or lowers a number of the jobs that are still to come,
-- whether the job ends well or with an exception, `run_pending_jobs` returns within that number of
-- calls and one more, and its last call has found no job.
pub run_pending_jobs_settles :
    {Q : Type 0} (execute_pending_job : Q → Executed × Q) (get_exception : Q → Q) (pending : Q → ℕ)
    (q : Q)
    → ((p : Q) → Executes execute_pending_job get_exception pending p)
    → (r : Q) × (run_pending_jobs execute_pending_job get_exception (suc (pending q)) q ≡ ok r)
      × ((before : Q) × (execute_pending_job before ≡ (idle, r)))
unfolding Settled
run_pending_jobs_settles execute_pending_job get_exception pending q executes =
    run_pending_jobs-Settled execute_pending_job get_exception pending executes (suc (pending q)) q
      (omega arith)

-- The default target of a registry and its transaction meet what `tx_enqueue_succeeds` asks for.
pub record Startable (app : Scheduler) (loaded : Graph) : Type 0 where
  pub target : ℕ
  pub got : Graph
  pub found : object_get "default.target" loaded ≡ ok (target, got)
  pub made : Gen
  pub is_made : new_transaction target start got ≡ ok made
  pub m : List (ℕ × List ℕ)
  pub ready : IsReady m (queued (record app { graph = got }) made)
  pub full : IsFull m m
  pub placed : IsPlaced made.graph m (queued (record app { graph = got }) made)
  pub mirrored : IsMirrored made.graph m
  pub named : IsNamed made.graph m
  pub tx : Transaction
  pub jobs_are : tx.jobs ≡ m
  pub acyclic : (q k : ℕ) → IsHead q k m → ¬ OnCycle made.graph tx q

-- The daemon starts: the default target's transaction is enqueued, and all first jobs in it succeed.
pub record Started (run : (run_fuel : ℕ) → Result Scheduler) (app : Scheduler) (loaded : Graph)
    : Type 0 where
  pub from : Startable app loaded
  pub out : Scheduler
  pub returns : run (left (queued (record app { graph = from.got }) from.made)) ≡ ok out
  pub succeeded :
      (q k : ℕ)
      → IsHead q k from.m
      → (b : Job) × (front_job k out ≡ some b) × (b.state ≡ TaskState.success)
