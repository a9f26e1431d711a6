-- ===== src/Entry.antt =====
-- How the daemon runs: `JS::run_pending_jobs` and `JS::loadObject` of cmd/schedulerd/js/js.cc, and
-- `main` of cmd/schedulerd/schedulerd.cc. The engine is a parameter: what a call of it does to its own
-- state or to the scheduler, whether it raises an exception, and whether a function of the program
-- that it calls fails. What is logged is left out, and what a load does to the event loop's timers.
pub mod Starts
use neo_init_ware.Common.{
  ℕ, zero, suc, ◌>>=◌, ◌>>◌, String, Result, ok, err, out_of_fuel, thrown, assert_failed, undefined,
}
use neo_init_ware.App.{Kernel}
use neo_init_ware.Objects.{Graph, object_get}
use neo_init_ware.Objects.LoadQueue.{Load, dispatch_load_queue}
use neo_init_ware.Tx.JobType.{start}
use neo_init_ware.Sched.{Scheduler, tx_enqueue}

-- What `JS_ExecutePendingJob` returns: a negative number, zero or a positive number.
pub data Executed : Type 0 where
  raised idle ran : Executed

-- Whether a script ended with an exception, and what it left behind.
pub data Evaluated {ℓ} (A : Type ℓ) : Type ℓ where
  completed exception : A → Evaluated A

abbrev pub left_behind {ℓ} : {A : Type ℓ} → Evaluated A → A
left_behind (completed a) = a
left_behind (exception a) = a

module _ {Q : Type 0} (execute_pending_job : Q → Executed × Q) (get_exception : Q → Q) where
  -- What follows a call in the loop of `JS::run_pending_jobs`.
  unfoldable pub after_job : (loop : Q → Result Q) → Executed → Q → Result Q
  after_job loop raised q = loop (get_exception q)
  after_job loop idle q = ok q
  after_job loop ran q = loop q

  -- `JS::run_pending_jobs`
  unfoldable pub run_pending_jobs : ℕ → Q → Result Q
  unfolding after_job
  run_pending_jobs zero q = err out_of_fuel
  run_pending_jobs (suc fuel) q =
      let (ret, q') = execute_pending_job q in after_job (run_pending_jobs fuel) ret q'

-- `JS::loadObject`: an exception of the script's function is logged, and does not leave the call.
unfoldable pub load_object : (String → Graph → Result (Evaluated Graph)) → Load
load_object call name g = do after ← call name g; ok (left_behind after)

-- `main`, up to its `exit(0)`, with the name of the script that it is given.
unfoldable pub main :
    (String → Scheduler → Result (Evaluated Scheduler))
    → (String → Graph → Result (Evaluated Graph))
    → Kernel
    → (load_fuel run_fuel : ℕ) → String
    → Scheduler
    → Result Scheduler
unfolding load_object dispatch_load_queue object_get tx_enqueue
main eval_file call kernel load_fuel run_fuel script sched = do
  evaluated ← eval_file script sched
  let app = left_behind evaluated
  loaded ← dispatch_load_queue (load_object call) load_fuel app.graph
  (myobj, got) ← object_get "default.target" loaded
  tx_enqueue kernel run_fuel myobj start (record app { graph = got })
