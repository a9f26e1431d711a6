-- ===== src/Sched/Calm.antt =====
-- Whatever runs leaves no job behind that it released: a job that may run after a step could run
-- before it already, and was not tried by the step.
use neo_init_ware.Common.{
  ℕ, String, ◌≡◌, ◌∙◌, ◌⊎◌, ◌||◌, sym, refl, subst, Bool, true, false, some, List, [], ◌∷◌, ok,
  >>=-eq-ok, ok-injective, inl, inr, Bool-cases, Option-cases,
}
use neo_init_ware.App.{Kernel, job_timeout, add_timer}
use neo_init_ware.Objects.{Graph, Edge}
use neo_init_ware.Tx.{
  TaskState, TaskId, Job, Transaction, job_for_name, job_for_name_in, load_job, modify_job,
}
use neo_init_ware.Sched.{
  Scheduler, Complete, front, change_front, note_running, job_run, run_if_runnable, start_other,
  job_runnable, running_job, set_running, is_success, is_awaiting, id_word,
}
use neo_init_ware.Sched.Runnable.{load_job-at}
use neo_init_ware.Sched.Placed.{
  IsHead, IsPlaced, Awaits, may_run, may_run-at, job_for_name_in-IsHead,
}
use neo_init_ware.Sched.Changes.{may_run-changed, may_run-same, changed-IsPlaced}
use neo_init_ware.Sched.Returns.{same_id_refl}

-- Whether a job of the front transaction may run.
abbrev pub front_may_run : Graph → ℕ → Scheduler → Bool
front_may_run g k s = elim s.transactions [ [] ↦ false | tx ∷ txs ↦ may_run g tx k ]

pub front_may_run-at :
    (g : Graph) (k : ℕ) (s : Scheduler) (first : Transaction) (others : List Transaction)
    → s.transactions ≡ first ∷ others
    → front_may_run g k s ≡ may_run g first k
front_may_run-at g k s first others queue = rw queue refl

module _ (g : Graph) (m : List (ℕ × List ℕ)) where
  pub record Calms (tried : ℕ → Type 0) (s t : Scheduler) : Type 0 where
    pub placed : IsPlaced g m t
    pub calm :
        (p k : ℕ)
        → IsHead p k m
        → front_may_run g k t ≡ true
        → (front_may_run g k s ≡ true) × (¬ tried k)

  pub calm_stay : (s : Scheduler) → IsPlaced g m s → Calms (λ _. ⊥) s s
  calm_stay s placed = record { placed = placed; calm = λ p k head may. (may, λ x. x) }

  pub calm_then :
      {A B : ℕ → Type 0} {s u t : Scheduler}
      → Calms A s u
      → Calms B u t
      → Calms (λ k. A k ⊎ B k) s t
  calm_then a b = record {
    placed = b.placed;
    calm = λ p k head may.
        let (may_u, not_b) = b.calm p k head may in
        let (may_s, not_a) = a.calm p k head may_u in
        (may_s, λ h. elim h [ inl x ↦ not_a x | inr x ↦ not_b x ]);
  }

  pub calm_weaken :
      {A B : ℕ → Type 0} {s t : Scheduler} → ((k : ℕ) → B k → A k) → Calms A s t → Calms B s t
  calm_weaken f a = record {
    placed = a.placed;
    calm = λ p k head may. let (may_s, not_a) = a.calm p k head may in (may_s, λ h. not_a (f k h));
  }

  -- A job's timer or number is changed.
  pub quiet-Calms :
      (s u : Scheduler) (j : ℕ) (f : Job → Job) (placed : IsPlaced g m s) (b : Job)
      → placed.first.job j ≡ some b
      → ((x : Job) → (f x).type ≡ x.type)
      → ((x : Job) → (f x).state ≡ x.state)
      → ((x : Job) → (f x).object ≡ x.object)
      → (p : ℕ) → IsHead p j m
      → u.graph ≡ s.graph
      → u.transactions ≡ (change_front (modify_job j f) s).transactions
      → Calms (λ _. ⊥) s u
  quiet-Calms s u j f placed b at types states objects p head same_graph changed =
      let (c, c_at, home, fit) = placed.homed p j head in
      let same : c ≡ b = cc (c_at, at) in
      let fit' : (is_awaiting (f b).state || is_success (f b).state) ≡ true =
        rw (states b) (rw same at fit) in
      record {
        placed = changed-IsPlaced g m s u j f placed b at (objects b) fit' same_graph changed;
        calm = λ q k head' may.
            let queue : u.transactions ≡ modify_job j f placed.first ∷ placed.others =
              changed ∙ rw placed.queue refl in
            let may' : may_run g (modify_job j f placed.first) k ≡ true =
              sym (front_may_run-at g k u (modify_job j f placed.first) placed.others queue)
              ∙ may in
            (
              rw placed.queue (sym (may_run-same g placed.first j f types states objects k) ∙ may'),
              λ x. x,
            );
      }

  -- A job's state is changed: it may release the jobs that await it.
  pub released :
      (s u : Scheduler) (j : ℕ) (f : Job → Job) (placed : IsPlaced g m s)
      → u.transactions ≡ (change_front (modify_job j f) s).transactions
      → (p k : ℕ) → IsHead p k m
      → front_may_run g k u ≡ true
      → (front_may_run g k s ≡ true) ⊎ ((k ≡ j) ⊎ Awaits g m p j)
  released s u j f placed changed p k head may =
      let (c, c_at, home, fit) = placed.homed p k head in
      let queue : u.transactions ≡ modify_job j f placed.first ∷ placed.others =
        changed ∙ rw placed.queue refl in
      let may' : may_run g (modify_job j f placed.first) k ≡ true =
        sym (front_may_run-at g k u (modify_job j f placed.first) placed.others queue) ∙ may in
      elim (may_run-changed g placed.first j f p k c c_at home may') [
        | inl could ↦ inl (rw placed.queue could)
        | inr (inl same) ↦ inr (inl same)
        | inr (inr awaits) ↦ inr (inr (subst (λ x. Awaits g x p j) placed.jobs_are awaits))
      ]

  -- What the front transaction is, where it is read.
  pub read_front :
      (s : Scheduler) (tx : Transaction) (placed : IsPlaced g m s)
      → front s ≡ ok tx
      → placed.first ≡ tx
  read_front s tx placed read = ok-injective (sym (rw placed.queue refl) ∙ read)

  pub front_may_run-reads :
      (s : Scheduler) (tx : Transaction) (j : ℕ) (b : Job)
      → IsPlaced g m s
      → front s ≡ ok tx
      → load_job j tx ≡ ok b
      → front_may_run g j s ≡ job_runnable s.graph tx b
  front_may_run-reads s tx j b placed is_front is_job =
      let at : placed.first.job j ≡ some b =
        rw (read_front s tx placed is_front) (load_job-at j tx b is_job) in
      let here =
        front_may_run-at g j s placed.first placed.others placed.queue
        ∙ may_run-at g placed.first j b at in
      here ∙ rw (placed.graph_is, read_front s tx placed is_front) refl

  -- The first job of a named object is found in the front transaction as it is in the map.
  pub job_for_name-reads :
      (s : Scheduler) (tx : Transaction) (name : String)
      → IsPlaced g m s
      → front s ≡ ok tx
      → job_for_name s.graph name tx ≡ job_for_name_in g name m
  unfolding job_for_name
  job_for_name-reads s tx name placed is_front =
      let jobs : tx.jobs ≡ m = rw (← read_front s tx placed is_front) placed.jobs_are in
      rw (jobs, placed.graph_is) refl

module _ (g : Graph) (m : List (ℕ × List ℕ)) (kernel : Kernel) (complete : Complete) where
  -- The completion that `job_run` calls releases nothing.
  abbrev pub CompletesCalmly : Type 0
  CompletesCalmly =
      (id : TaskId) (p j : ℕ) (s t : Scheduler)
      → IsPlaced g m s
      → IsHead p j m
      → running_job id s.running_jobs ≡ some j
      → complete id TaskState.success s ≡ ok t
      → Calms g m (λ k. k ≡ j) s t

  module _ (completes : CompletesCalmly) where
    job_run-Calms :
        (p j : ℕ) (s t : Scheduler)
        → IsPlaced g m s
        → IsHead p j m
        → job_run kernel complete j s ≡ ok t
        → Calms g m (λ k. k ≡ j) s t
    unfolding job_run note_running
    job_run-Calms p j s t placed head run =
        let (tx, is_front, run1) = >>=-eq-ok (front s) _ run in
        let (b, is_job, run2) = >>=-eq-ok (load_job j tx) _ run1 in
        let (u, noted, run3) = >>=-eq-ok (note_running kernel j b s) _ run2 in
        let ((timer, app), added, made) =
          >>=-eq-ok (add_timer kernel false 700 job_timeout (id_word b.id) s.app) _ noted in
        let f = λ (x : Job). record x { timer = timer } in
        let u' =
          change_front (modify_job j f)
            (record s { app = app; running_jobs = set_running b.id j s.running_jobs }) in
        let same : u' ≡ u = ok-injective made in
        let at : placed.first.job j ≡ some b =
          rw (read_front g m s tx placed is_front) (load_job-at j tx b is_job) in
        let quiet =
          quiet-Calms g m s u' j f placed b at (λ x. refl) (λ x. refl) (λ x. refl) p head refl
            refl in
        let running : running_job b.id u'.running_jobs ≡ some j = rw (same_id_refl b.id) refl in
        let done = completes b.id p j u' t quiet.placed head running (rw same run3) in
        calm_weaken g m (λ k h. inr h) (calm_then g m quiet done)

    pub run_if_runnable-Calms :
        (p j : ℕ) (s t : Scheduler)
        → IsPlaced g m s
        → IsHead p j m
        → run_if_runnable kernel complete j s ≡ ok t
        → Calms g m (λ k. k ≡ j) s t
    unfolding run_if_runnable
    run_if_runnable-Calms p j s t placed head run =
        let (tx, is_front, run1) = >>=-eq-ok (front s) _ run in
        let (b, is_job, run2) = >>=-eq-ok (load_job j tx) _ run1 in
        let may_eq = front_may_run-reads g m s tx j b placed is_front is_job in
        elim (Bool-cases (job_runnable s.graph tx b)) [
          | inl runnable ↦ job_run-Calms p j s t placed head (rw runnable at run2)
          | inr held ↦
              let same : s ≡ t = ok-injective (rw held at run2) in
              rw (← same) (record {
                placed = placed;
                calm = λ q k head' may. (may, λ k_eq. cc (rw k_eq at may, may_eq, held));
              })
        ]

    pub start_other-Calms :
        (e : Edge) (s t : Scheduler)
        → IsPlaced g m s
        → start_other kernel complete e s ≡ ok t
        → Calms g m (λ k. job_for_name_in g e.from m ≡ some k) s t
    unfolding start_other
    start_other-Calms e s t placed run =
        let (tx, is_front, run1) = >>=-eq-ok (front s) _ run in
        let same_map = job_for_name-reads g m s tx e.from placed is_front in
        elim (Option-cases (job_for_name_in g e.from m)) [
          | inl absent ↦
              let same : s ≡ t = ok-injective (rw (same_map ∙ absent) at run1) in
              rw (← same) (calm_weaken g m (λ k h. cc (h, absent)) (calm_stay g m s placed))
          | inr (j, found) ↦
              let (p, head, named) = job_for_name_in-IsHead g e.from m j found in
              let did = run_if_runnable-Calms p j s t placed head (rw (same_map ∙ found) at run1) in
              calm_weaken g m (λ k h. cc (h, found)) did
        ]
