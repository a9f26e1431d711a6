-- ===== src/Tests/Sched.antt =====
-- Running of jobs on small graphs.
use neo_init_ware.Common.{
  ℕ, zero, suc, ◌<◌, ◌≤◌, arith, inl, inr, ◌≡◌, refl, true, none, some, List, [], ◌∷◌, ◌++◌, ok,
  err,
}
use neo_init_ware.App.{App, Kernel}
use neo_init_ware.Tx.JobType.{start}
use neo_init_ware.Tx.{Gen, Transaction, TaskState, assigned, empty_tx, new_job, Job}
use neo_init_ware.Tx.Generate.{new_transaction}
use neo_init_ware.Sched.{Scheduler, job_complete, tx_enqueue}
use neo_init_ware.Sched.Queue.{behind, queued}
use neo_init_ware.Sched.Ready.{IsReady, IsListed, front_job, front_size, left}
use neo_init_ware.Sched.Returns.{IsWaiting}
use neo_init_ware.Sched.Completes.{job_complete_returns}
use neo_init_ware.Sched.Leaves.{tx_enqueue_returns}
use neo_init_ware.Sched.Seen.{Steps, amend, become, front_view}
use neo_init_ware.Sched.Plan.{job_complete_refines, tx_enqueue_refines}
use neo_init_ware.Tx.JobType.{index}
use neo_init_ware.Tests.Samples.{pair}

abbrev pub willing : Kernel
willing _ = true

abbrev pub idle_app : App
idle_app = record { m_timers = []; m_fds = []; calls = 0; next = 1 }

abbrev pub idle : Scheduler
idle = record { graph = pair; transactions = []; running_jobs = []; last_jobid = 0; app = idle_app }

-- a and b have been started.
abbrev ran : Scheduler
unfolding tx_enqueue
ran = elim (tx_enqueue willing 9 1 start idle) [ ok s ↦ s | err _ ↦ idle ]

abbrev states : Scheduler → List TaskState
states s = elim s.transactions [ [] ↦ [] | tx ∷ _ ↦ state tx 0 ++ state tx 1 ]
  where
    state : Transaction → ℕ → List TaskState
    state tx j = elim (tx.job j) [ none ↦ [] | some b ↦ b.state ∷ [] ]

ran_all : states ran ≡ TaskState.success ∷ TaskState.success ∷ []
unfolding tx_enqueue
ran_all = refl

-- The transaction that starts a.
unfoldable pub made : Gen
unfolding new_transaction
made = elim (new_transaction 1 start pair) [
  | ok s ↦ s
  | err _ ↦ record { graph = pair; tx = empty_tx }
]

-- b may run only after a has.
abbrev pub held : Job
unfolding new_job
held = new_job 1 start

abbrev pub jobs : List (ℕ × List ℕ)
jobs = (0, 1 ∷ []) ∷ (1, 0 ∷ []) ∷ []

-- Queued, with b's job running, and with another transaction behind it.
abbrev busy : Scheduler
busy = record idle { transactions = made.tx ∷ made.tx ∷ []; running_jobs = (assigned 0, 1) ∷ [] }

abbrev pub made_job : ℕ → Job
made_job j = elim (made.tx.job j) [ none ↦ held | some b ↦ b ]

pub made-IsReady :
    (s : Scheduler) (others : List Transaction) → s.transactions ≡ made.tx ∷ others → IsReady jobs s
unfolding made
made-IsReady s others queue = record {
  first = made.tx;
  others = others;
  queue = queue;
  jobs_are = refl;
  live = live;
}
  where
    live :
        (k : ℕ)
        → IsListed k jobs
        → (b : Job) × (front_job k s ≡ some b) × (index b.type < 5) × (k < front_size s)
    live zero listed = (made_job 0, rw queue refl, omega arith, rw queue (omega arith))
    live (suc zero) listed = (made_job 1, rw queue refl, omega arith, rw queue (omega arith))
    live (suc (suc k)) (inl listed) = absurd (ground arith)
    live (suc (suc k)) (inr (inl listed)) = absurd (ground arith)
    live (suc (suc k)) (inr (inr listed)) = absurd listed

b_waits : IsWaiting jobs 1 busy
unfolding made
b_waits = record { job = _; listed = inl refl; job_at = refl; awaits = refl }

job_complete_returns_example :
    (t : Scheduler) × (job_complete willing (left busy) (assigned 0) TaskState.success busy ≡ ok t)
    × IsReady jobs t
    × (left t < left busy)
    × (behind t ≡ behind busy)
job_complete_returns_example =
    job_complete_returns willing jobs (assigned 0) TaskState.success 1 busy (λ n. refl)
      (made-IsReady busy (made.tx ∷ []) refl) b_waits refl refl

-- Another transaction is enqueued behind one that starts a.
abbrev second : Scheduler
second = record idle { transactions = made.tx ∷ [] }

tx_enqueue_returns_example :
    (t : Scheduler) × (tx_enqueue willing (left (queued second made)) 1 start second ≡ ok t)
    × IsReady jobs t
    × (left t ≤ left (queued second made))
    × (behind t ≡ behind (queued second made))
unfolding made
tx_enqueue_returns_example =
    tx_enqueue_returns willing jobs 1 start second made (λ n. refl) refl
      (made-IsReady (queued second made) (made.tx ∷ []) refl) (inl refl, (inr (inl refl), tt))

job_complete_refines_example :
    (t : Scheduler) × (job_complete willing (left busy) (assigned 0) TaskState.success busy ≡ ok t)
    × Steps pair (amend 1 (become TaskState.success) (front_view busy)) (front_view t)
job_complete_refines_example =
    job_complete_refines willing jobs (assigned 0) TaskState.success 1 busy (λ n. refl)
      (made-IsReady busy (made.tx ∷ []) refl) b_waits refl refl

tx_enqueue_refines_example :
    (t : Scheduler) × (tx_enqueue willing (left (queued idle made)) 1 start idle ≡ ok t)
    × Steps made.graph (front_view (queued idle made)) (front_view t)
unfolding made
tx_enqueue_refines_example =
    tx_enqueue_refines willing jobs 1 start idle made (λ n. refl) refl
      (made-IsReady (queued idle made) [] refl) (inl refl, (inr (inl refl), tt))
