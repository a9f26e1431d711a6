-- ===== src/Sched/Completes.antt =====
-- The completion of a job returns, and so do all the jobs that it starts.
use neo_init_ware.Common.{
  ℕ, zero, suc, ◌+◌, ◌≤◌, ◌<◌, ◌≡◌, refl, true, some, List, [], ◌∷◌, ok, >>=-runs, Option-cases,
  Bool-cases, inl, inr, if◌then◌else◌, arith,
}
use neo_init_ware.App.{Kernel}
use neo_init_ware.Objects.{Graph, Edge, has_flag}
use neo_init_ware.Objects.EdgeType
use neo_init_ware.Tx.JobType.{same_type, start, restart}
use neo_init_ware.Tx.{TaskState, TaskId, Job, Transaction, job_for_name, modify_job}
use neo_init_ware.Sched.{
  Scheduler, Complete, front, change_front, record_result, note_running, job_run, run_if_runnable,
  start_other, start_others, restart_as_start, job_complete, job_runnable, running_job, edges_to_of,
  is_success, is_awaiting, has_ended,
}
use neo_init_ware.Sched.Queue.{behind, job_complete_keeps_queue}
use neo_init_ware.Sched.Ready.{
  IsReady, IsListed, left, front_job, runs_left, changed-IsReady, changed-left, changed-at, live-at,
  job_for_name_in-IsListed,
}
use neo_init_ware.Sched.Returns.{
  Settles, IsWaiting, stay, and_then, reads, note_running-Noted, record_result-Recorded,
}

job_runnable-awaits :
    (g : Graph) (tx : Transaction) (b : Job)
    → job_runnable g tx b ≡ true
    → is_awaiting b.state ≡ true
unfolding job_runnable
job_runnable-awaits g tx b runnable = ground arith

-- The call that `job_run` makes returns, where at most `most` completions are left.
abbrev pub Completes : List (ℕ × List ℕ) → Complete → (most : ℕ) → Type 0
Completes m complete most =
    (id : TaskId) (j : ℕ) (s : Scheduler)
    → IsReady m s
    → IsWaiting m j s
    → running_job id s.running_jobs ≡ some j
    → left s ≤ most
    → Settles m s (complete id TaskState.success s)

module _ (kernel : Kernel) (willing : (n : ℕ) → kernel n ≡ true) (m : List (ℕ × List ℕ))
    (complete : Complete) (most : ℕ) (completes : Completes m complete most) where
  job_run-Settles :
      (j : ℕ) (s : Scheduler)
      → IsReady m s
      → IsWaiting m j s
      → left s ≤ most
      → Settles m s (job_run kernel complete j s)
  unfolding job_run
  job_run-Settles j s ready waits few =
      let n = note_running-Noted kernel willing j waits.job s in
      let (named, below) = live-at ready j waits.job waits.listed waits.job_at in
      let f = λ (x : Job). record x { timer = n.timer } in
      let ready' = changed-IsReady m s n.out j f ready waits.job waits.job_at named n.queue in
      let less =
        changed-left m s n.out j f ready waits.job waits.job_at named n.queue 0 below
          (omega arith) in
      let waits' : IsWaiting m j n.out = record {
        job = f waits.job;
        listed = waits.listed;
        job_at = changed-at m s n.out j f ready waits.job waits.job_at named n.queue;
        awaits = waits.awaits;
      } in
      let r = completes waits.job.id j n.out ready' waits' n.is_running (omega (arith, less)) in
      record {
        out = r.out;
        runs =
            reads m s j waits.job _ ready waits.job_at
              (>>=-runs (note_running kernel j waits.job s) _ n.runs r.runs);
        ready = r.ready;
        fewer = omega (arith, r.fewer, less);
      }

  pub run_if_runnable-Settles :
      (j : ℕ) (s : Scheduler)
      → IsReady m s
      → IsListed j m
      → left s ≤ most
      → Settles m s (run_if_runnable kernel complete j s)
  unfolding run_if_runnable
  run_if_runnable-Settles j s ready listed few =
      let (b, at, named, below) = ready.live j listed in
      elim (Bool-cases (job_runnable s.graph ready.first b)) [
        | inl runnable ↦
            let waits : IsWaiting m j s = record {
              job = b;
              listed = listed;
              job_at = at;
              awaits = job_runnable-awaits s.graph ready.first b runnable;
            } in
            let r = job_run-Settles j s ready waits few in
            record {
              out = r.out;
              runs = reads m s j b _ ready at (rw runnable r.runs);
              ready = r.ready;
              fewer = r.fewer;
            }
        | inr held ↦ record {
          out = s;
          runs = reads m s j b _ ready at (rw held refl);
          ready = ready;
          fewer = omega arith;
        }
      ]

  start_other-Settles :
      (e : Edge) (s : Scheduler)
      → IsReady m s
      → left s ≤ most
      → Settles m s (start_other kernel complete e s)
  unfolding start_other job_for_name
  start_other-Settles e s ready few =
      elim (Option-cases (job_for_name s.graph e.from ready.first)) [
        | inl absent ↦ record {
          out = s;
          runs = >>=-runs (front s) _ {x = ready.first} (rw ready.queue refl) (rw absent refl);
          ready = ready;
          fewer = omega arith;
        }
        | inr (k, found) ↦
            let listed =
              job_for_name_in-IsListed s.graph e.from m k (rw (← ready.jobs_are) found) in
            let r = run_if_runnable-Settles k s ready listed few in
            record {
              out = r.out;
              runs = >>=-runs (front s) _ {x = ready.first} (rw ready.queue refl) (rw found r.runs);
              ready = r.ready;
              fewer = r.fewer;
            }
      ]

  start_others-Settles :
      (es : List Edge) (s : Scheduler)
      → IsReady m s
      → left s ≤ most
      → Settles m s (start_others kernel complete es s)
  unfolding start_others
  start_others-Settles [] s ready few = stay m s ready
  start_others-Settles (e ∷ es) s ready few =
      let one : Settles m s
          (if has_flag EdgeType.after e then start_other kernel complete e s else ok s) =
        elim (Bool-cases (has_flag EdgeType.after e)) [
          | inl orders ↦ rw orders (start_other-Settles e s ready few)
          | inr plain ↦ rw plain (stay m s ready)
        ] in
      and_then m s _ (start_others kernel complete es) one
        (start_others-Settles es one.out one.ready (omega (arith, one.fewer)))

  -- `b` is the job before its result was recorded.
  restart_as_start-Settles :
      (res : TaskState) (j : ℕ) (b c : Job) (s : Scheduler)
      → IsReady m s
      → IsListed j m
      → front_job j s ≡ some c
      → c.type ≡ b.type
      → left s ≤ most
      → Settles m s (restart_as_start kernel complete res j b s)
  unfolding restart_as_start
  restart_as_start-Settles res j b c s ready listed at same few =
      let f = λ (x : Job). record x { type = start; state = TaskState.awaiting } in
      let u = change_front (modify_job j f) s in
      let (named, below) = live-at ready j c listed at in
      elim (Bool-cases (is_success res)) [
        | inr failed ↦ rw failed (stay m s ready)
        | inl success ↦ elim (Bool-cases (same_type b.type restart)) [
          | inr other ↦ rw (success, other) (stay m s ready)
          | inl restarts ↦
              let ready' = changed-IsReady m s u j f ready c at (ground arith) refl in
              let again : same_type c.type restart ≡ true = rw same restarts in
              let loses : runs_left (some (f c)) + 1 ≤ runs_left (some c) = ground arith in
              let less = changed-left m s u j f ready c at (ground arith) refl 1 below loses in
              let r = run_if_runnable-Settles j u ready' listed (omega (arith, less)) in
              rw (success, restarts)
                (record {
                  out = r.out;
                  runs = r.runs;
                  ready = r.ready;
                  fewer = omega (arith, r.fewer, less);
                })
        ]
      ]

waits-left :
    (m : List (ℕ × List ℕ)) (j : ℕ) (s : Scheduler) → IsReady m s → IsWaiting m j s → 1 ≤ left s
waits-left m j s ready waits =
    let f = λ (x : Job). record x { state = TaskState.success } in
    let (named, below) = live-at ready j waits.job waits.listed waits.job_at in
    let loses : runs_left (some (f waits.job)) + 1 ≤ runs_left (some waits.job) =
      ground (arith, waits.awaits) in
    omega (
      arith,
      changed-left m s (change_front (modify_job j f) s) j f ready waits.job waits.job_at named refl
          1 below loses,
    )

-- A bound on the completions that are left is enough fuel.
pub job_complete-Settles :
    (kernel : Kernel) (willing : (n : ℕ) → kernel n ≡ true) (m : List (ℕ × List ℕ)) (fuel : ℕ)
    (id : TaskId) (res : TaskState) (j : ℕ) (s : Scheduler)
    → IsReady m s
    → IsWaiting m j s
    → running_job id s.running_jobs ≡ some j
    → has_ended res ≡ true
    → left s ≤ fuel
    → (r : Settles m s (job_complete kernel fuel id res s)) × (left r.out < left s)
unfolding job_complete
job_complete-Settles kernel willing m zero id res j s ready waits runs ends few =
    absurd (omega (arith, waits-left m j s ready waits))
job_complete-Settles kernel willing m (suc fuel) id res j s ready waits runs ends few =
    let (named, below) = live-at ready j waits.job waits.listed waits.job_at in
    let rec = record_result-Recorded kernel willing id res j waits.job s named ends in
    let ended = record waits.job { state = res } in
    let ready1 =
      changed-IsReady m s rec.out j (λ _. ended) ready waits.job waits.job_at named rec.queue in
    let loses : runs_left (some ended) + 1 ≤ runs_left (some waits.job) =
      ground (arith, waits.awaits) in
    let less =
      changed-left m s rec.out j (λ _. ended) ready waits.job waits.job_at named rec.queue 1 below
        loses in
    let at1 = changed-at m s rec.out j (λ _. ended) ready waits.job waits.job_at named rec.queue in
    let inner : Completes m (job_complete kernel fuel) fuel = λ id' k u ready' waits' runs' few'.
      (job_complete-Settles kernel willing m fuel id' TaskState.success k u ready' waits' runs' refl
        few').0 in
    let again =
      restart_as_start-Settles kernel willing m (job_complete kernel fuel) fuel inner res j
        waits.job ended rec.out ready1 waits.listed at1 refl (omega (arith, less)) in
    let all =
      start_others-Settles kernel willing m (job_complete kernel fuel) fuel inner
        (edges_to_of waits.job.object again.out.graph) again.out again.ready
        (omega (arith, less, again.fewer)) in
    let fewer : left all.out < left s = omega (arith, less, again.fewer, all.fewer) in
    rw (runs, job_complete)
      (
        record {
          out = all.out;
          runs = reads m s j waits.job _ ready waits.job_at (
              >>=-runs (record_result kernel id res j waits.job s) _ rec.runs (
                >>=-runs
                  (restart_as_start kernel (job_complete kernel fuel) res j waits.job rec.out) _
                  again.runs all.runs));
          ready = all.ready;
          fewer = omega (arith, fewer);
        },
        fewer,
      )

-- Where the kernel accepts every timer, and the listed jobs of the front transaction are live and of
-- types that the log has a word for, a running job that still awaits its result completes: the call
-- returns within as much fuel as completions are left, whatever jobs it starts in turn. The listed
-- jobs stay live, fewer completions are left, and the transactions behind the front one are
-- unchanged.
pub job_complete_returns :
    (kernel : Kernel) (m : List (ℕ × List ℕ)) (id : TaskId) (res : TaskState) (j : ℕ)
    (s : Scheduler)
    → ((n : ℕ) → kernel n ≡ true)
    → IsReady m s
    → IsWaiting m j s
    → running_job id s.running_jobs ≡ some j
    → has_ended res ≡ true
    → (t : Scheduler) × (job_complete kernel (left s) id res s ≡ ok t)
      × IsReady m t
      × (left t < left s)
      × (behind t ≡ behind s)
job_complete_returns kernel m id res j s willing ready waits runs ends =
    let (r, fewer) =
      job_complete-Settles kernel willing m (left s) id res j s ready waits runs ends
        (omega arith) in
    (r.out, r.runs, r.ready, fewer, job_complete_keeps_queue kernel (left s) id res s r.out r.runs)
