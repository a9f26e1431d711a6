-- ===== src/Sched/Returns.antt =====
-- Steps of the scheduler that return and leave the front transaction runnable.
use neo_init_ware.Common.{
  ℕ, ◌≤◌, ◌<◌, ◌≡◌, ◌∙◌, sym, refl, true, some, List, Result, ok, ◌>>=◌, >>=-runs, ltb, arith,
}
use neo_init_ware.App.{Kernel, add_timer}
use neo_init_ware.Tx.JobType.{index}
use neo_init_ware.Tx.{
  TaskState, TaskId, unassigned, assigned, Job, Transaction, load_job, modify_job,
}
use neo_init_ware.Sched.{
  Scheduler, front, change_front, record_result, note_running, log_job_complete, running_job,
  is_awaiting, has_ended, same_id,
}
use neo_init_ware.Sched.Ready.{IsReady, IsListed, left, front_job}

-- The step returns, the jobs can still run, and no more completions are left than before.
pub record Settles (m : List (ℕ × List ℕ)) (s : Scheduler) (r : Result Scheduler) : Type 0 where
  pub out : Scheduler
  pub runs : r ≡ ok out
  pub ready : IsReady m out
  pub fewer : left out ≤ left s

-- The job is listed, and awaits to be run.
pub record IsWaiting (m : List (ℕ × List ℕ)) (j : ℕ) (s : Scheduler) : Type 0 where
  pub job : Job
  pub listed : IsListed j m
  pub job_at : front_job j s ≡ some job
  pub awaits : is_awaiting job.state ≡ true

pub same_id_refl : (id : TaskId) → same_id id id ≡ true
same_id_refl unassigned = refl
same_id_refl (assigned n) = ground arith

module _ (m : List (ℕ × List ℕ)) where
  pub stay : (s : Scheduler) → IsReady m s → Settles m s (ok s)
  stay s ready = record { out = s; runs = refl; ready = ready; fewer = omega arith }

  pub and_then :
      (s : Scheduler) (r : Result Scheduler) (f : Scheduler → Result Scheduler)
      → (first : Settles m s r) → Settles m first.out (f first.out)
      → Settles m s (r >>= f)
  and_then s r f first later = record {
    out = later.out;
    runs = >>=-runs r f first.runs later.runs;
    ready = later.ready;
    fewer = omega (arith, first.fewer, later.fewer);
  }

  -- A step that reads a job of the front transaction.
  pub reads :
      (s : Scheduler) (j : ℕ) (b : Job) (f : Transaction → Job → Result Scheduler)
      {r : Result Scheduler}
      → (ready : IsReady m s) → front_job j s ≡ some b
      → f ready.first b ≡ r
      → (front s >>= λ tx. load_job j tx >>= f tx) ≡ r
  reads s j b f ready at returns =
      let at_first : ready.first.job j ≡ some b = sym (rw ready.queue refl) ∙ at in
      >>=-runs (front s) _ {x = ready.first} (rw ready.queue refl)
        (>>=-runs (load_job j ready.first) _ {x = b} (rw (at_first, load_job) refl) returns)

-- What `note_running` leaves behind.
pub record Noted (j : ℕ) (b : Job) (s : Scheduler) (r : Result Scheduler) : Type 0 where
  pub out : Scheduler
  pub timer : ℕ
  pub runs : r ≡ ok out
  pub queue :
      out.transactions
      ≡ (change_front (modify_job j (λ x. record x { timer = timer })) s).transactions
  pub is_running : running_job b.id out.running_jobs ≡ some j

-- What `record_result` leaves behind.
pub record Recorded (res : TaskState) (j : ℕ) (b : Job) (s : Scheduler) (r : Result Scheduler)
    : Type 0 where
  pub out : Scheduler
  pub runs : r ≡ ok out
  pub queue :
      out.transactions
      ≡ (change_front (modify_job j (λ _. record b { state = res })) s).transactions

module _ (kernel : Kernel) (willing : (n : ℕ) → kernel n ≡ true) where
  pub note_running-Noted :
      (j : ℕ) (b : Job) (s : Scheduler) → Noted j b s (note_running kernel j b s)
  unfolding note_running add_timer
  note_running-Noted j b s =
      rw (willing s.app.calls, note_running)
        (record {
          out = _;
          timer = s.app.next;
          runs = refl;
          queue = refl;
          is_running = rw (same_id_refl b.id) refl;
        })

  pub record_result-Recorded :
      (id : TaskId) (res : TaskState) (j : ℕ) (b : Job) (s : Scheduler)
      → index b.type < 5
      → has_ended res ≡ true
      → Recorded res j b s (record_result kernel id res j b s)
  unfolding record_result log_job_complete
  record_result-Recorded id res j b s named ends =
      let small : ltb (index b.type) 5 ≡ true = ground arith in
      rw (small, record_result)
        (rw (ends, record_result) (record { out = _; runs = refl; queue = refl }))
