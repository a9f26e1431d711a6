-- ===== src/Sched/Queue.antt =====
-- The queue of transactions: whatever runs, runs in the first one.
use neo_init_ware.Common.{
  ℕ, zero, suc, ◌≡◌, ◌++◌, refl, sym, ◌∙◌, ap, Bool, true, false, none, some, Option, List, [], ◌∷◌,
  Result, ok, ◌>>=◌, if◌then◌else◌, >>=-eq-ok, ok-injective, Option-cases, inl, inr, arith,
}
use neo_init_ware.App.{Kernel, job_timeout, add_timer}
use neo_init_ware.Objects.{Edge, has_flag}
use neo_init_ware.Objects.EdgeType
use neo_init_ware.Tx.JobType.{JobType, same_type, start, restart}
use neo_init_ware.Tx.{TaskState, TaskId, Job, Transaction, Gen, job_for_name, load_job, modify_job}
use neo_init_ware.Tx.Generate.{new_transaction}
use neo_init_ware.Sched.{
  Scheduler, Complete, front, change_front, record_result, note_running, log_job_complete, id_word,
  job_run, run_if_runnable, start_other, start_others, restart_as_start, job_complete, assign_id,
  enqueue_leaves, tx_enqueue, job_runnable, running_job, edges_to_of, is_success,
}

-- What stands behind the first transaction.
abbrev pub behind : Scheduler → Option (List Transaction)
behind s = elim s.transactions [ [] ↦ none | tx ∷ txs ↦ some txs ]

abbrev KeepsQueue : Scheduler → Result Scheduler → Type 0
KeepsQueue s r = (t : Scheduler) → r ≡ ok t → behind t ≡ behind s

>>=-KeepsQueue {ℓ} :
    {A : Type ℓ} (s : Scheduler) (m : Result A) (f : A → Result Scheduler)
    → ((a : A) → m ≡ ok a → KeepsQueue s (f a))
    → KeepsQueue s (m >>= f)
>>=-KeepsQueue s m f keeps t run = let (a, e, rest) = >>=-eq-ok m f run in keeps a e t rest

ok-KeepsQueue : (s u : Scheduler) → behind u ≡ behind s → KeepsQueue s (ok u)
ok-KeepsQueue s u same t run = ap behind (sym (ok-injective run)) ∙ same

-- A step after another.
after-KeepsQueue :
    (s u : Scheduler) (r : Result Scheduler) → behind u ≡ behind s → KeepsQueue u r → KeepsQueue s r
after-KeepsQueue s u r same keeps t run = keeps t run ∙ same

if-KeepsQueue :
    (s : Scheduler) (c : Bool) (x y : Result Scheduler)
    → KeepsQueue s x
    → KeepsQueue s y
    → KeepsQueue s (if c then x else y)
if-KeepsQueue s true x y kx ky = kx
if-KeepsQueue s false x y kx ky = ky

module _ (kernel : Kernel) where
  record_result-KeepsQueue :
      (id : TaskId) (res : TaskState) (j : ℕ) (b : Job) (s : Scheduler)
      → KeepsQueue s (record_result kernel id res j b s)
  unfolding record_result
  record_result-KeepsQueue id res j b s =
      >>=-KeepsQueue s (log_job_complete (record b { state = res })) _
        (λ _ _. ok-KeepsQueue s _ (ground arith))

  note_running-KeepsQueue :
      (j : ℕ) (b : Job) (s : Scheduler) → KeepsQueue s (note_running kernel j b s)
  unfolding note_running
  note_running-KeepsQueue j b s =
      >>=-KeepsQueue s (add_timer kernel false 700 job_timeout (id_word b.id) s.app) _
        (λ _ _. ok-KeepsQueue s _ (ground arith))

  module _ (complete : Complete)
      (keeps : (id : TaskId) (res : TaskState) (s : Scheduler)
        → KeepsQueue s (complete id res s)) where
    job_run-KeepsQueue : (j : ℕ) (s : Scheduler) → KeepsQueue s (job_run kernel complete j s)
    unfolding job_run
    job_run-KeepsQueue j s = >>=-KeepsQueue s (front s) _ λ tx _.
        >>=-KeepsQueue s (load_job j tx) _ λ b _.
          >>=-KeepsQueue s (note_running kernel j b s) _ λ u e.
            after-KeepsQueue s u _ (note_running-KeepsQueue j b s u e)
              (keeps b.id TaskState.success u)

    run_if_runnable-KeepsQueue :
        (j : ℕ) (s : Scheduler) → KeepsQueue s (run_if_runnable kernel complete j s)
    unfolding run_if_runnable
    run_if_runnable-KeepsQueue j s = >>=-KeepsQueue s (front s) _ λ tx _.
        >>=-KeepsQueue s (load_job j tx) _ λ b _.
          if-KeepsQueue s (job_runnable s.graph tx b) _ _ (job_run-KeepsQueue j s)
            (ok-KeepsQueue s s refl)

    start_other-KeepsQueue :
        (e : Edge) (s : Scheduler) → KeepsQueue s (start_other kernel complete e s)
    unfolding start_other
    start_other-KeepsQueue e s = >>=-KeepsQueue s (front s) _ λ tx _.
        elim (Option-cases (job_for_name s.graph e.from tx)) [
          | inl absent ↦ rw absent (ok-KeepsQueue s s refl)
          | inr (k, found) ↦ rw found (run_if_runnable-KeepsQueue k s)
        ]

    start_others-KeepsQueue :
        (es : List Edge) (s : Scheduler) → KeepsQueue s (start_others kernel complete es s)
    unfolding start_others
    start_others-KeepsQueue [] s = ok-KeepsQueue s s refl
    start_others-KeepsQueue (e ∷ es) s = >>=-KeepsQueue s _ _ λ u run.
        after-KeepsQueue s u _
          (if-KeepsQueue s (has_flag EdgeType.after e) _ _ (start_other-KeepsQueue e s)
            (ok-KeepsQueue s s refl) u run)
          (start_others-KeepsQueue es u)

    restart_as_start-KeepsQueue :
        (res : TaskState) (j : ℕ) (b : Job) (s : Scheduler)
        → KeepsQueue s (restart_as_start kernel complete res j b s)
    unfolding restart_as_start
    restart_as_start-KeepsQueue res j b s =
        if-KeepsQueue s (is_success res) _ _
          (if-KeepsQueue s (same_type b.type restart) _ _
            (after-KeepsQueue s again _ (ground arith) (run_if_runnable-KeepsQueue j again))
            (ok-KeepsQueue s s refl))
          (ok-KeepsQueue s s refl)
      where
        again : Scheduler
        again =
            change_front (modify_job j (λ x. record x { type = start; state = TaskState.awaiting }))
              s

  job_complete-KeepsQueue :
      (fuel : ℕ) (id : TaskId) (res : TaskState) (s : Scheduler)
      → KeepsQueue s (job_complete kernel fuel id res s)
  unfolding job_complete
  job_complete-KeepsQueue zero id res s = λ t run. cc
  job_complete-KeepsQueue (suc fuel) id res s =
      elim (Option-cases (running_job id s.running_jobs)) [
        | inl absent ↦ rw (absent, job_complete) (λ t run. cc)
        | inr (j, found) ↦
            let keeps = job_complete-KeepsQueue fuel in
            rw (found, job_complete)
              (>>=-KeepsQueue s (front s) _ λ tx _. >>=-KeepsQueue s (load_job j tx) _ λ b _.
                >>=-KeepsQueue s (record_result kernel id res j b s) _ λ u e.
                  after-KeepsQueue s u _ (record_result-KeepsQueue id res j b s u e) (
                    >>=-KeepsQueue u (restart_as_start kernel (job_complete kernel fuel) res j b u)
                      _
                      λ v f.
                        after-KeepsQueue u v _
                          (restart_as_start-KeepsQueue (job_complete kernel fuel) keeps res j b u v
                            f)
                          (start_others-KeepsQueue (job_complete kernel fuel) keeps
                            (edges_to_of b.object v.graph) v)))
      ]

  assign_id-behind : (j : ℕ) (b : Job) (s : Scheduler) → behind (assign_id j b s) ≡ behind s
  unfolding assign_id
  assign_id-behind j b s = ground arith

  enqueue_leaves-KeepsQueue :
      (fuel : ℕ) (m : List (ℕ × List ℕ)) (s : Scheduler)
      → KeepsQueue s (enqueue_leaves kernel fuel m s)
  unfolding enqueue_leaves
  enqueue_leaves-KeepsQueue fuel [] s = ok-KeepsQueue s s refl
  enqueue_leaves-KeepsQueue fuel ((p, []) ∷ m) s = λ t run. cc
  enqueue_leaves-KeepsQueue fuel ((p, j ∷ js) ∷ m) s = >>=-KeepsQueue s (front s) _ λ tx _.
      >>=-KeepsQueue s (load_job j tx) _ λ b _.
        >>=-KeepsQueue s (run_if_runnable kernel (job_complete kernel fuel) j (assign_id j b s)) _
          λ u e.
            after-KeepsQueue s u _
              (run_if_runnable-KeepsQueue (job_complete kernel fuel) (job_complete-KeepsQueue fuel)
                  j (assign_id j b s) u e
                ∙ assign_id-behind j b s)
              (enqueue_leaves-KeepsQueue fuel m u)

-- Whatever the completion of a job starts, the transactions behind the first one stay as they are.
pub job_complete_keeps_queue :
    (kernel : Kernel) (fuel : ℕ) (id : TaskId) (res : TaskState) (s t : Scheduler)
    → job_complete kernel fuel id res s ≡ ok t
    → behind t ≡ behind s
job_complete_keeps_queue kernel fuel id res s t run =
    job_complete-KeepsQueue kernel fuel id res s t run

-- A transaction is made and put behind the others.
abbrev pub queued : Scheduler → Gen → Scheduler
queued s made = record s { graph = made.graph; transactions = s.transactions ++ (made.tx ∷ []) }

-- What the enqueueing of a transaction runs is in the front one.
pub tx_enqueue_keeps_queue :
    (kernel : Kernel) (fuel p : ℕ) (op : JobType) (s t : Scheduler) (made : Gen)
    → new_transaction p op s.graph ≡ ok made
    → tx_enqueue kernel fuel p op s ≡ ok t
    → behind t ≡ behind (queued s made)
unfolding tx_enqueue
tx_enqueue_keeps_queue kernel fuel p op s t made new run =
    let (m, is_new, run1) = >>=-eq-ok (new_transaction p op s.graph) _ run in
    let same : m ≡ made = ok-injective (sym is_new ∙ new) in
    let (tx, _, run2) = >>=-eq-ok (front (queued s made)) _ (rw same at run1) in
    enqueue_leaves-KeepsQueue kernel fuel tx.jobs (queued s made) t run2
