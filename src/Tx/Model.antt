-- ===== src/Tx/Model.antt =====
-- `class Transaction` and `struct Job` of cmd/schedulerd/scheduler/scheduler.h: the state, and the
-- operations that the parts of txgen.cc share. A `Job *` and a `Requirement *` are indices into
-- the two heaps `job` and `req`, in which `none` is memory that is not, or no longer, allocated.
use neo_init_ware.Common.{
  ℕ, ◌==◌, String, Bool, false, Option, none, some, List, [], ◌∷◌, Result, ok, err, undefined, suc,
  update, find, put, if◌then◌else◌,
}
use neo_init_ware.Objects.{Graph, names_object}
use neo_init_ware.Tx.JobType.{JobType}

-- `enum Task::State`
pub data TaskState : Type 0 where
  awaiting running success failure timeout cancelled : TaskState

-- `Task::Id`: a number, or -1 for a task that has none yet.
pub data TaskId : Type 0 where
  unassigned : TaskId
  assigned : ℕ → TaskId

pub record Requirement : Type 0 where
  pub from : ℕ
  pub to : ℕ
  pub required : Bool
  pub goal_required : Bool

pub record Job : Type 0 where
  pub id : TaskId
  pub state : TaskState
  pub timer : ℕ
  pub object : ℕ
  pub type : JobType
  pub reqs : List ℕ
  pub reqs_on : List ℕ
  pub goal_required : Bool

-- The constructors of `Task` and `Job`.
unfoldable pub new_job : ℕ → JobType → Job
new_job object type = record {
  id = unassigned;
  state = TaskState.awaiting;
  timer = 0;
  object = object;
  type = type;
  reqs = [];
  reqs_on = [];
  goal_required = false;
}

-- `jobs` is a `std::map` from objects, in the order of their addresses.
pub record Transaction : Type 0 where
  pub jobs : List (ℕ × List ℕ)
  pub objective : Option ℕ
  pub job : ℕ → Option Job
  pub req : ℕ → Option Requirement
  pub next_job : ℕ
  pub next_req : ℕ

abbrev pub empty_tx : Transaction
empty_tx = record {
  jobs = [];
  objective = none;
  job = λ _. none;
  req = λ _. none;
  next_job = 0;
  next_req = 0;
}

-- What generation works on: the scheduler's objects, and the transaction.
pub record Gen : Type 0 where
  pub graph : Graph
  pub tx : Transaction

-- The list for an object, empty where the map has no entry.
abbrev pub jobs_at : ℕ → Transaction → List ℕ
jobs_at p tx = elim (find p tx.jobs) [ none ↦ [] | some js ↦ js ]

-- `jobs[object]` as a reference: the entry is made if there is none.
abbrev pub ensure_entry : ℕ → Transaction → Transaction
ensure_entry p tx = record tx { jobs = put p (jobs_at p tx) tx.jobs }

abbrev pub set_jobs : ℕ → List ℕ → Transaction → Transaction
set_jobs p js tx = record tx { jobs = put p js tx.jobs }

-- A change of the job behind a pointer.
abbrev pub modify_job : ℕ → (Job → Job) → Transaction → Transaction
modify_job j f tx = record tx {
  job = λ k. if j == k then (elim (tx.job k) [ none ↦ none | some b ↦ some (f b) ]) else tx.job k;
}

-- A pointer is read.
abbrev pub load_job : ℕ → Transaction → Result Job
load_job j tx = elim (tx.job j) [ none ↦ err undefined | some b ↦ ok b ]

abbrev pub load_req : ℕ → Transaction → Result Requirement
load_req r tx = elim (tx.req r) [ none ↦ err undefined | some q ↦ ok q ]

-- `Job::add_req`
unfoldable pub add_req : (j on : ℕ) (required goal_required : Bool) → Transaction → Transaction
add_req j on required goal_required tx =
    let r = tx.next_req in
    let q : Requirement = record {
      from = j;
      to = on;
      required = required;
      goal_required = goal_required;
    } in
    let made = record tx { req = update tx.req r (some q); next_req = suc r } in
    modify_job on (λ b. record b { reqs_on = r ∷ b.reqs_on })
      (modify_job j (λ b. record b { reqs = r ∷ b.reqs }) made)

-- `Transaction::object_job_for(SPtr)`
unfoldable pub first_job : List ℕ → Option ℕ
first_job [] = none
first_job (j ∷ js) = some j

unfoldable pub object_job_for : ℕ → Transaction → Option ℕ
unfolding first_job
object_job_for p tx = first_job (jobs_at p tx)

-- `Transaction::object_job_for(ObjectId)`: the first entry whose object has the name decides.
unfoldable pub job_for_name_in : Graph → String → List (ℕ × List ℕ) → Option ℕ
unfolding first_job
job_for_name_in g name [] = none
job_for_name_in g name ((p, js) ∷ m) =
    if names_object g name p then first_job js else job_for_name_in g name m

unfoldable pub job_for_name : Graph → String → Transaction → Option ℕ
unfolding job_for_name_in
job_for_name g name tx = job_for_name_in g name tx.jobs
