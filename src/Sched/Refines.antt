-- ===== src/Sched/Refines.antt =====
-- Whatever the scheduler runs, the front transaction changes by steps of `Sched.Seen` only.
use neo_init_ware.Common.{
  ℕ, ◌≡◌, ◌≢◌, ◌⊎◌, ◌∙◌, sym, ap, refl, subst, true, false, Option, none, some, List, [], ◌∷◌, ok,
  >>=-eq-ok, ok-injective, inl, inr, Bool-cases, Option-cases, if◌then◌else◌, arith,
}
use neo_init_ware.App.{Kernel, job_timeout, add_timer}
use neo_init_ware.Objects.{Graph, Edge, has_flag}
use neo_init_ware.Objects.EdgeType
use neo_init_ware.Tx.JobType.{same_type, start, restart}
use neo_init_ware.Tx.{TaskState, TaskId, Job, Transaction, job_for_name, load_job, modify_job}
use neo_init_ware.Sched.{
  Scheduler, Complete, front, change_front, note_running, job_run, run_if_runnable, start_other,
  start_others, restart_as_start, job_runnable, running_job, set_running, is_success, id_word,
}
use neo_init_ware.Sched.Runnable.{job_runnable_iff, load_job-at, is_success-state}
use neo_init_ware.Sched.Returns.{same_id_refl}
use neo_init_ware.Sched.Seen.{
  Seen, see, see_job, amend, view, front_view, start_again, MayStart, starts_again, Steps, no_step,
  step, Steps-then, amend-nothing, front_view-reads, change_front-view,
}

success-cases : (x : TaskState) → (x ≡ TaskState.success) ⊎ (x ≢ TaskState.success)
success-cases x = elim (Bool-cases (is_success x)) [
  | inl done ↦ inl (is_success-state x done)
  | inr other ↦ inr (λ e. cc (ap is_success e, other))
]

see_job-inverse :
    (o : Option Job) (c : Seen) → see_job o ≡ some c → (d : Job) × (o ≡ some d) × (see d ≡ c)
see_job-inverse none c seen = cc
see_job-inverse (some d) c seen = (d, refl, cc)

module _ (g : Graph) where
  -- The graph stays, and the front transaction makes steps.
  pub record Refines (s t : Scheduler) : Type 0 where
    pub graph_is : t.graph ≡ g
    pub steps : Steps g (front_view s) (front_view t)

  pub Refines-then : {s u t : Scheduler} → Refines s u → Refines u t → Refines s t
  Refines-then a b = record { graph_is = b.graph_is; steps = Steps-then g a.steps b.steps }

  pub Refines-same : {s t : Scheduler} → s ≡ t → s.graph ≡ g → Refines s t
  Refines-same {s = s} e graph_is =
      subst (Refines s) e (record { graph_is = graph_is; steps = no_step })

  -- A change that cannot be seen.
  pub Refines-quiet :
      (s u : Scheduler) (tx : Transaction) (j : ℕ) (f : Job → Job)
      → ((b : Job) → see (f b) ≡ see b)
      → front s ≡ ok tx
      → u.graph ≡ g
      → u.transactions ≡ (change_front (modify_job j f) s).transactions
      → front_view u ≡ front_view s
  Refines-quiet s u tx j f unseen is_front graph_is changed =
      change_front-view j f (λ x. x) s u tx unseen is_front changed ∙ amend-nothing j (front_view s)

  runnable-MayStart :
      (tx : Transaction) (k : ℕ) (b : Job)
      → tx.job k ≡ some b
      → job_runnable g tx b ≡ true
      → MayStart g (view tx) k
  unfolding job_for_name
  runnable-MayStart tx k b at runs =
      let (awaits, free) = (job_runnable_iff g tx b).0 runs in
      record {
        job = see b;
        job_at = ap see_job at;
        awaits = awaits;
        free = λ e other c owns is_after found c_at not_stop not_restart.
            elim (success-cases c.state) [
              | inl done ↦ done
              | inr not_succeeded ↦
                  let (d, d_at, same) = see_job-inverse (tx.job other) c c_at in
                  absurd (
                    free e owns (record {
                      other = other;
                      job = d;
                      is_after = is_after;
                      found = found;
                      job_at = d_at;
                      not_stop = λ x. not_stop (ap (λ y. y.type) (sym same) ∙ x);
                      not_restart = λ x. not_restart (ap (λ y. y.type) (sym same) ∙ x);
                      not_succeeded = λ x. not_succeeded (ap (λ y. y.state) (sym same) ∙ x);
                    }))
            ];
      }

module _ (g : Graph) (kernel : Kernel) (complete : Complete) where
  -- The completion that `job_run` calls makes steps.
  abbrev pub CompletesInSteps : Type 0
  CompletesInSteps =
      (id : TaskId) (j : ℕ) (s t : Scheduler)
      → s.graph ≡ g
      → running_job id s.running_jobs ≡ some j
      → MayStart g (front_view s) j
      → complete id TaskState.success s ≡ ok t
      → Refines g s t

  module _ (completes : CompletesInSteps) where
    job_run-Refines :
        (j : ℕ) (s t : Scheduler)
        → s.graph ≡ g
        → MayStart g (front_view s) j
        → job_run kernel complete j s ≡ ok t
        → Refines g s t
    unfolding job_run note_running
    job_run-Refines j s t graph_is may run =
        let (tx, is_front, run1) = >>=-eq-ok (front s) _ run in
        let (b, is_job, run2) = >>=-eq-ok (load_job j tx) _ run1 in
        let (u, noted, run3) = >>=-eq-ok (note_running kernel j b s) _ run2 in
        let ((timer, app), added, made) =
          >>=-eq-ok (add_timer kernel false 700 job_timeout (id_word b.id) s.app) _ noted in
        let f = λ (x : Job). record x { timer = timer } in
        let u' =
          change_front (modify_job j f)
            (record s { app = app; running_jobs = set_running b.id j s.running_jobs }) in
        let same : u' ≡ u = ok-injective made in
        let unseen = Refines-quiet g s u' tx j f (λ x. refl) is_front graph_is refl in
        let running : running_job b.id u'.running_jobs ≡ some j = rw (same_id_refl b.id) refl in
        let done =
          completes b.id j u' t graph_is running (subst (λ v. MayStart g v j) (sym unseen) may)
            (rw same run3) in
        record {
          graph_is = done.graph_is;
          steps = subst (λ v. Steps g v (front_view t)) unseen done.steps;
        }

    pub run_if_runnable-Refines :
        (j : ℕ) (s t : Scheduler)
        → s.graph ≡ g
        → run_if_runnable kernel complete j s ≡ ok t
        → Refines g s t
    unfolding run_if_runnable
    run_if_runnable-Refines j s t graph_is run =
        let (tx, is_front, run1) = >>=-eq-ok (front s) _ run in
        let (b, is_job, run2) = >>=-eq-ok (load_job j tx) _ run1 in
        elim (Bool-cases (job_runnable s.graph tx b)) [
          | inl runnable ↦
              let may =
                runnable-MayStart g tx j b (load_job-at j tx b is_job)
                  (subst (λ h. job_runnable h tx b ≡ true) graph_is runnable) in
              job_run-Refines j s t graph_is
                (subst (λ v. MayStart g v j) (sym (front_view-reads s tx is_front)) may)
                (rw runnable at run2)
          | inr held ↦ Refines-same g (ok-injective (rw held at run2)) graph_is
        ]

    start_other-Refines :
        (e : Edge) (s t : Scheduler)
        → s.graph ≡ g
        → start_other kernel complete e s ≡ ok t
        → Refines g s t
    unfolding start_other
    start_other-Refines e s t graph_is run =
        let (tx, is_front, run1) = >>=-eq-ok (front s) _ run in
        elim (Option-cases (job_for_name s.graph e.from tx)) [
          | inl absent ↦ Refines-same g (ok-injective (rw absent at run1)) graph_is
          | inr (j, found) ↦ run_if_runnable-Refines j s t graph_is (rw found at run1)
        ]

    pub start_others-Refines :
        (es : List Edge) (s t : Scheduler)
        → s.graph ≡ g
        → start_others kernel complete es s ≡ ok t
        → Refines g s t
    unfolding start_others
    start_others-Refines [] s t graph_is run = Refines-same g (ok-injective run) graph_is
    start_others-Refines (e ∷ es) s t graph_is run =
        let (u, one, later) =
          >>=-eq-ok (if has_flag EdgeType.after e then start_other kernel complete e s else ok s) _
            run in
        let first : Refines g s u = elim (Bool-cases (has_flag EdgeType.after e)) [
          | inl orders ↦ start_other-Refines e s u graph_is (rw orders at one)
          | inr plain ↦ Refines-same g (ok-injective (rw plain at one)) graph_is
        ] in
        Refines-then g first (start_others-Refines es u t first.graph_is later)

    -- `b` is the job before its result was recorded.
    pub restart_as_start-Refines :
        (res : TaskState) (j : ℕ) (b : Job) (s t : Scheduler) (tx : Transaction) (x : Seen)
        → s.graph ≡ g
        → front s ≡ ok tx
        → (front_view s).seen j ≡ some x
        → x.type ≡ b.type
        → x.state ≡ res
        → restart_as_start kernel complete res j b s ≡ ok t
        → Refines g s t
    unfolding restart_as_start
    restart_as_start-Refines res j b s t tx x graph_is is_front seen_at types ends run =
        elim (Bool-cases (is_success res)) [
          | inr failed ↦ Refines-same g (ok-injective (rw failed at run)) graph_is
          | inl success ↦ elim (Bool-cases (same_type b.type restart)) [
            | inr other ↦ Refines-same g (ok-injective (rw (success, other) at run)) graph_is
            | inl restarts ↦
                let f = λ (y : Job). record y { type = start; state = TaskState.awaiting } in
                let again = change_front (modify_job j f) s in
                let goes : run_if_runnable kernel complete j again ≡ ok t =
                  rw (success, restarts) at run in
                let now : front_view again ≡ amend j start_again (front_view s) =
                  change_front-view j f start_again s again tx (λ y. refl) is_front refl in
                let is_restart : x.type ≡ restart = ground (arith, types, restarts) in
                let done : x.state ≡ TaskState.success = ends ∙ is_success-state res success in
                let first : Steps g (front_view s) (front_view again) =
                  subst (Steps g (front_view s)) (sym now)
                    (step (starts_again j x seen_at is_restart done) no_step) in
                let later = run_if_runnable-Refines j again t graph_is goes in
                record { graph_is = later.graph_is; steps = Steps-then g first later.steps }
          ]
        ]
