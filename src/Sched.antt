-- ===== src/Sched.antt =====
-- Running of jobs: cmd/schedulerd/scheduler/scheduler.cc from `job_run` to `job_complete`, the
-- logging of a completion, and the target restarter of cmd/schedulerd/restarters/restarter.cc,
-- which completes a job as soon as it is asked to start it.
-- All running jobs are of the front transaction, whose heap their pointers are of: `tx_enqueue`
-- starts jobs of that one only, and no transaction ever leaves the queue.
pub mod Runnable
pub mod Queue
pub mod Ready
pub mod Returns
pub mod Completes
pub mod Leaves
pub mod Placed
pub mod Changes
pub mod Calm
pub mod Relay
pub mod Drained
pub mod Succeeds
pub mod Seen
pub mod Refines
pub mod Plan
use neo_init_ware.Common.{
  ℕ, zero, suc, ◌-◌, ◌^◌, ◌==◌, ◌++◌, ◌>>=◌, ◌>>◌, ltb, String, Bool, true, false, not, Option,
  none, some, List, [], ◌∷◌, Result, ok, err, guard, thrown, undefined, assert_failed, out_of_fuel,
  get_elem?, if◌then◌else◌,
}
use neo_init_ware.App.{App, Kernel, job_timeout, add_timer, del_timer}
use neo_init_ware.Objects.{Graph, Edge, has_flag}
use neo_init_ware.Objects.EdgeType
use neo_init_ware.Tx.JobType.{JobType, start, stop, restart, index, among, same_type}
use neo_init_ware.Tx.{
  TaskState, TaskId, unassigned, assigned, Job, Transaction, Gen, modify_job, load_job,
  job_for_name,
}
use neo_init_ware.Tx.Submit.{edges_of}
use neo_init_ware.Tx.Generate.{new_transaction}

pub record Scheduler : Type 0 where
  pub graph : Graph
  pub transactions : List Transaction
  pub running_jobs : List (TaskId × ℕ)
  pub last_jobid : ℕ
  pub app : App

abbrev pub same_id : TaskId → TaskId → Bool
same_id unassigned unassigned = true
same_id (assigned a) (assigned b) = a == b
same_id _ _ = false

abbrev pub running_job : TaskId → List (TaskId × ℕ) → Option ℕ
running_job id [] = none
running_job id ((k, j) ∷ m) = if same_id k id then some j else running_job id m

abbrev pub stop_running : TaskId → List (TaskId × ℕ) → List (TaskId × ℕ)
stop_running id [] = []
stop_running id ((k, j) ∷ m) =
    if same_id k id then stop_running id m else (k, j) ∷ stop_running id m

-- `running_jobs[id] = job`
abbrev pub set_running : TaskId → ℕ → List (TaskId × ℕ) → List (TaskId × ℕ)
set_running id j m = (id, j) ∷ stop_running id m

-- A job id as the data of a timer: -1 is the largest 64-bit word.
abbrev pub id_word : TaskId → ℕ
id_word unassigned = 2 ^ 64 - 1
id_word (assigned n) = n

abbrev pub word_id : ℕ → TaskId
word_id n = if n == 2 ^ 64 - 1 then unassigned else assigned n

abbrev pub is_awaiting : TaskState → Bool
is_awaiting TaskState.awaiting = true
is_awaiting _ = false

abbrev pub is_success : TaskState → Bool
is_success TaskState.success = true
is_success _ = false

abbrev pub has_ended : TaskState → Bool
has_ended TaskState.awaiting = false
has_ended TaskState.running = false
has_ended _ = true

-- `transactions.front()`, which is undefined on an empty queue.
abbrev pub front : Scheduler → Result Transaction
front s = elim s.transactions [ [] ↦ err undefined | tx ∷ _ ↦ ok tx ]

abbrev pub change_front : (Transaction → Transaction) → Scheduler → Scheduler
change_front f s = record s {
  transactions = elim s.transactions [ [] ↦ [] | tx ∷ txs ↦ f tx ∷ txs ];
}

-- `Job::after_order`: whether the job, which runs after the other, must wait for it.
unfoldable pub waits_for : (other : Job) → Bool
waits_for other = not (among other.type (stop ∷ restart ∷ []))

-- The test in the loop of `job_runnable`: whether the edge holds the job back.
unfoldable pub blocks : Graph → Transaction → Edge → Bool
unfolding waits_for job_for_name
blocks g tx e =
    if has_flag EdgeType.after e
    then (elim (job_for_name g e.to tx) [
      | none ↦ false
      | some k ↦ elim (tx.job k) [
        | none ↦ false
        | some b ↦ if waits_for b then not (is_success b.state) else false
      ]
    ])
    else false

unfoldable pub none_blocks : Graph → Transaction → List Edge → Bool
unfolding blocks
none_blocks g tx [] = true
none_blocks g tx (e ∷ es) = if blocks g tx e then false else none_blocks g tx es

-- `Scheduler::job_runnable`
unfoldable pub job_runnable : Graph → Transaction → Job → Bool
unfolding none_blocks
job_runnable g tx b = if is_awaiting b.state then none_blocks g tx (edges_of b.object g) else false

-- `log_job_complete`: it asserts that the job has ended, and it reads the name of the job's type in
-- a table that ends with `kRestart`.
unfoldable pub log_job_complete : Job → Result (Unit {0})
log_job_complete b = do
  guard (ltb (index b.type) 5) undefined
  guard (has_ended b.state) assert_failed
  ok tt

-- The first half of `job_complete`: the timer, the map of running jobs and the state of the job.
unfoldable pub record_result : Kernel → TaskId → TaskState → ℕ → Job → Scheduler → Result Scheduler
unfolding log_job_complete del_timer
record_result kernel id res j b s = do
  let app = if b.timer == 0 then s.app else (del_timer kernel b.timer s.app).1
  let ended = record b { state = res }
  log_job_complete ended
  ok (
      change_front (modify_job j (λ _. ended))
        (record s { app = app; running_jobs = stop_running id s.running_jobs }))

abbrev pub Complete : Type 0
Complete = TaskId → TaskState → Scheduler → Result Scheduler

-- The first half of `job_run`: the map of running jobs and the timeout.
unfoldable pub note_running : Kernel → ℕ → Job → Scheduler → Result Scheduler
unfolding add_timer
note_running kernel j b s = do
  (timer, app) ← add_timer kernel false 700 job_timeout (id_word b.id) s.app
  ok (
      change_front (modify_job j (λ x. record x { timer = timer }))
        (record s { app = app; running_jobs = set_running b.id j s.running_jobs }))

-- `TargetRestarter::start`, which reports success at once.
unfoldable pub target_start : Complete → TaskId → Scheduler → Result Scheduler
target_start complete id s = complete id TaskState.success s

-- `TargetRestarter::stop`
unfoldable pub target_stop : Complete → TaskId → Scheduler → Result Scheduler
target_stop complete id s = complete id TaskState.success s

-- `Scheduler::job_run`. The restarter for "target" is the target restarter.
unfoldable pub job_run : Kernel → Complete → ℕ → Scheduler → Result Scheduler
unfolding note_running target_start
job_run kernel complete j s = do
  tx ← front s
  b ← load_job j tx
  started ← note_running kernel j b s
  target_start complete b.id started

-- A job is run if it may be.
unfoldable pub run_if_runnable : Kernel → Complete → ℕ → Scheduler → Result Scheduler
unfolding job_run job_runnable
run_if_runnable kernel complete j s = do
  tx ← front s
  b ← load_job j tx
  if job_runnable s.graph tx b then job_run kernel complete j s else ok s

-- The loop of `job_complete` over the edges that lead to the completed job's object.
unfoldable pub start_other : Kernel → Complete → Edge → Scheduler → Result Scheduler
unfolding run_if_runnable job_for_name
start_other kernel complete e s = do
  tx ← front s
  elim (job_for_name s.graph e.from tx) [
    | none ↦ ok s
    | some k ↦ run_if_runnable kernel complete k s
  ]

unfoldable pub start_others : Kernel → Complete → List Edge → Scheduler → Result Scheduler
unfolding start_other
start_others kernel complete [] s = ok s
start_others kernel complete (e ∷ es) s = do
  s' ← (if has_flag EdgeType.after e then start_other kernel complete e s else ok s)
  start_others kernel complete es s'

-- A restart job that succeeded becomes a start job.
unfoldable pub restart_as_start :
    Kernel → Complete → TaskState → ℕ → Job → Scheduler → Result Scheduler
unfolding run_if_runnable
restart_as_start kernel complete res j b s =
    let again =
      change_front (modify_job j (λ x. record x { type = start; state = TaskState.awaiting })) s in
    if is_success res
    then (if same_type b.type restart then run_if_runnable kernel complete j again else ok s)
    else ok s

abbrev pub edges_to_of : ℕ → Graph → List Edge
edges_to_of p g = elim (get_elem? g.heap p) [ none ↦ [] | some o ↦ o.edges_to ]

-- `Scheduler::job_complete`. The map gives a null pointer for an id that is not running.
unfoldable pub job_complete : Kernel → ℕ → Complete
unfolding record_result restart_as_start start_others
job_complete kernel zero id res s = err out_of_fuel
job_complete kernel (suc fuel) id res s = elim (running_job id s.running_jobs) [
  | none ↦ err undefined
  | some j ↦ do
    tx ← front s
    b ← load_job j tx
    s1 ← record_result kernel id res j b s
    s2 ← restart_as_start kernel (job_complete kernel fuel) res j b s1
    start_others kernel (job_complete kernel fuel) (edges_to_of b.object s2.graph) s2
]

-- `Scheduler::job_timeout_cb`
unfoldable pub job_timeout_cb : Kernel → ℕ → (udata : ℕ) → Scheduler → Result Scheduler
unfolding job_complete
job_timeout_cb kernel fuel udata s = elim (running_job (word_id udata) s.running_jobs) [
  | none ↦ err undefined
  | some j ↦
      job_complete kernel fuel (word_id udata) TaskState.timeout
        (change_front (modify_job j (λ x. record x { timer = 0 })) s)
]

-- `if (job->id == -1) job->id = last_jobid++;`
unfoldable pub assign_id : ℕ → Job → Scheduler → Scheduler
assign_id j b s =
    if same_id b.id unassigned
    then change_front (modify_job j (λ x. record x { id = assigned s.last_jobid }))
        (record s { last_jobid = suc s.last_jobid })
    else s

-- `Scheduler::tx_enqueue_leaves`, over the map's entries. The first job of an entry is read before
-- the test for an empty list.
unfoldable pub enqueue_leaves : Kernel → ℕ → List (ℕ × List ℕ) → Scheduler → Result Scheduler
unfolding assign_id run_if_runnable job_complete
enqueue_leaves kernel fuel [] s = ok s
enqueue_leaves kernel fuel ((p, []) ∷ m) s = err undefined
enqueue_leaves kernel fuel ((p, j ∷ _) ∷ m) s = do
  tx ← front s
  b ← load_job j tx
  s' ← run_if_runnable kernel (job_complete kernel fuel) j (assign_id j b s)
  enqueue_leaves kernel fuel m s'

-- `Scheduler::tx_enqueue`
unfoldable pub tx_enqueue : Kernel → ℕ → ℕ → JobType → Scheduler → Result Scheduler
unfolding new_transaction enqueue_leaves
tx_enqueue kernel fuel p op s = do
  made ← new_transaction p op s.graph
  let queued = record s { graph = made.graph; transactions = s.transactions ++ (made.tx ∷ []) }
  tx ← front queued
  enqueue_leaves kernel fuel tx.jobs queued
