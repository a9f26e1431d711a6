-- ===== src/Sched/Seen.antt =====
-- What a running transaction is, apart from timers, ids and the tables that the program keeps: the
-- types and states of jobs, which change one at a time.
use neo_init_ware.Common.{
  ℕ, ◌≡◌, ◌≢◌, ◌==◌, ◌∙◌, sym, ap, refl, subst, fun_ext, true, Option, none, some, List, [], ◌∷◌,
  inl, inr, Bool-cases, List-cases, ok, ok-injective, if◌then◌else◌, arith,
}
use neo_init_ware.Objects.{Graph, Edge, has_flag}
use neo_init_ware.Objects.EdgeType
use neo_init_ware.Objects.Edges.{Owns}
use neo_init_ware.Tx.JobType.{JobType, start, stop, restart}
use neo_init_ware.Tx.{TaskState, Job, Transaction, job_for_name_in, modify_job}
use neo_init_ware.Tx.Submit.{edges_of}
use neo_init_ware.Sched.{Scheduler, front, change_front}

pub record Seen : Type 0 where
  pub type : JobType
  pub state : TaskState
  pub object : ℕ

pub record View : Type 0 where
  pub jobs : List (ℕ × List ℕ)
  pub seen : ℕ → Option Seen

abbrev pub see : Job → Seen
see b = record { type = b.type; state = b.state; object = b.object }

abbrev pub see_job : Option Job → Option Seen
see_job none = none
see_job (some b) = some (see b)

abbrev pub amend_seen : (Seen → Seen) → Option Seen → Option Seen
amend_seen f none = none
amend_seen f (some x) = some (f x)

-- A change of one job.
abbrev pub amend : ℕ → (Seen → Seen) → View → View
amend j f v = record v { seen = λ k. if j == k then amend_seen f (v.seen k) else v.seen k }

abbrev pub view : Transaction → View
view tx = record { jobs = tx.jobs; seen = λ k. see_job (tx.job k) }

abbrev pub front_view : Scheduler → View
front_view s = elim s.transactions [
  | [] ↦ record { jobs = []; seen = λ _. none }
  | tx ∷ _ ↦ view tx
]

abbrev pub become : TaskState → Seen → Seen
become res x = record x { state = res }

abbrev pub start_again : Seen → Seen
start_again x = record x { type = start; state = TaskState.awaiting }

module _ (g : Graph) where
  -- The job awaits its run, and every job that it has to wait for has succeeded.
  pub record MayStart (v : View) (k : ℕ) : Type 0 where
    pub job : Seen
    pub job_at : v.seen k ≡ some job
    pub awaits : job.state ≡ TaskState.awaiting
    pub free :
        (e : Edge) (other : ℕ) (c : Seen)
        → Owns e (edges_of job.object g)
        → has_flag EdgeType.after e ≡ true
        → job_for_name_in g e.to v.jobs ≡ some other
        → v.seen other ≡ some c
        → c.type ≢ stop
        → c.type ≢ restart
        → c.state ≡ TaskState.success

  -- A job that may start succeeds, or a restart job that has succeeded awaits its run as a start job.
  pub data Step (v : View) : View → Type 0 where
    succeeds : (k : ℕ) → MayStart v k → Step v (amend k (become TaskState.success) v)
    starts_again :
        (k : ℕ) (x : Seen)
        → v.seen k ≡ some x
        → x.type ≡ restart
        → x.state ≡ TaskState.success
        → Step v (amend k start_again v)

  pub data Steps : View → View → Type 0 where
    no_step : {v : View} → Steps v v
    step : {v u w : View} → Step v u → Steps u w → Steps v w

  pub Steps-then : {u v w : View} → Steps u v → Steps v w → Steps u w
  Steps-then no_step later = later
  Steps-then (step one rest) later = step one (Steps-then rest later)

see_job-amend :
    (f : Job → Job) (h : Seen → Seen)
    → ((b : Job) → see (f b) ≡ h (see b))
    → (o : Option Job)
    → see_job (elim o [ none ↦ none | some b ↦ some (f b) ]) ≡ amend_seen h (see_job o)
see_job-amend f h agree none = refl
see_job-amend f h agree (some b) = ap some (agree b)

-- A change of a job of the front transaction, seen from outside.
pub modify_job-view :
    (j : ℕ) (f : Job → Job) (h : Seen → Seen) (tx : Transaction)
    → ((b : Job) → see (f b) ≡ h (see b))
    → view (modify_job j f tx) ≡ amend j h (view tx)
modify_job-view j f h tx agree = ap (λ s. record (view tx) { seen = s }) (fun_ext (λ k. at k))
  where
    at : (k : ℕ) → see_job ((modify_job j f tx).job k) ≡ (amend j h (view tx)).seen k
    at k = elim (Bool-cases (j == k)) [
      | inl same ↦ rw same (see_job-amend f h agree (tx.job k))
      | inr other ↦ rw other refl
    ]

-- The same for a job that is known, put in place of what it was.
pub set_job-view :
    (j : ℕ) (b c : Job) (h : Seen → Seen) (tx : Transaction)
    → tx.job j ≡ some b
    → see c ≡ h (see b)
    → view (modify_job j (λ _. c) tx) ≡ amend j h (view tx)
set_job-view j b c h tx at agree =
    ap (λ s. record (view tx) { seen = s }) (fun_ext (λ k. at_each k))
  where
    at_each : (k : ℕ) → see_job ((modify_job j (λ _. c) tx).job k) ≡ (amend j h (view tx)).seen k
    at_each k = elim (Bool-cases (j == k)) [
      | inl same ↦
          let j_is : j ≡ k = ground arith in
          let at_k : tx.job k ≡ some b = subst (λ i. tx.job i ≡ some b) j_is at in
          rw (same, at_k) (ap some agree)
      | inr other ↦ rw other refl
    ]

pub amend-nothing : (j : ℕ) (v : View) → amend j (λ x. x) v ≡ v
amend-nothing j v = ap (λ s. record v { seen = s }) (fun_ext (λ k. at k))
  where
    nothing : (o : Option Seen) → amend_seen (λ x. x) o ≡ o
    nothing none = refl
    nothing (some x) = refl

    at : (k : ℕ) → (if j == k then amend_seen (λ x. x) (v.seen k) else v.seen k) ≡ v.seen k
    at k = elim (Bool-cases (j == k)) [
      | inl same ↦ rw (same, nothing (v.seen k)) refl
      | inr other ↦ rw other refl
    ]

-- The front transaction, where it was read.
pub front-queue :
    (s : Scheduler) (tx : Transaction)
    → front s ≡ ok tx
    → (txs : List Transaction) × (s.transactions ≡ tx ∷ txs)
front-queue s tx is_front = elim (List-cases s.transactions) [
  | inl empty ↦ absurd (ground arith)
  | inr (first, txs, queue) ↦
      let same : first ≡ tx = ok-injective (sym (rw queue refl) ∙ is_front) in
      (txs, rw (← same) queue)
]

pub front_view-reads : (s : Scheduler) (tx : Transaction) → front s ≡ ok tx → front_view s ≡ view tx
front_view-reads s tx is_front = let (txs, queue) = front-queue s tx is_front in rw queue refl

pub change_front-view :
    (j : ℕ) (f : Job → Job) (h : Seen → Seen) (s u : Scheduler) (tx : Transaction)
    → ((b : Job) → see (f b) ≡ h (see b))
    → front s ≡ ok tx
    → u.transactions ≡ (change_front (modify_job j f) s).transactions
    → front_view u ≡ amend j h (front_view s)
change_front-view j f h s u tx agree is_front changed =
    let (txs, queue) = front-queue s tx is_front in
    let now : u.transactions ≡ modify_job j f tx ∷ txs = changed ∙ rw queue refl in
    rw (now, queue) (modify_job-view j f h tx agree)
