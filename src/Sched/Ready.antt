-- ===== src/Sched/Ready.antt =====
-- A scheduler whose front transaction can be run, and how often its jobs can still complete.
use neo_init_ware.Common.{
  ℕ, String, ◌+◌, ◌≤◌, ◌<◌, ◌≡◌, ◌==◌, ◌∙◌, ◌⊎◌, sym, subst, refl, true, Option, none, some, List,
  [], ◌∷◌, inl, inr, contains, sum_below, sum_below-less, Bool-cases, if◌then◌else◌, arith,
}
use neo_init_ware.Objects.{Graph, names_object}
use neo_init_ware.Tx.JobType.{restart, index, same_type}
use neo_init_ware.Tx.{Job, Transaction, first_job, job_for_name_in, modify_job}
use neo_init_ware.Sched.{Scheduler, is_awaiting, change_front}

-- An awaiting job completes once, and a restart job once more as a start job.
abbrev pub runs_left : Option Job → ℕ
runs_left none = 0
runs_left (some b) =
    (if is_awaiting b.state then 1 else 0) + (if same_type b.type restart then 2 else 0)

abbrev pub pending : Transaction → ℕ
pending tx = sum_below tx.next_job (λ k. runs_left (tx.job k))

-- The same of the front transaction.
abbrev pub left : Scheduler → ℕ
left s = elim s.transactions [ [] ↦ 0 | tx ∷ txs ↦ pending tx ]

abbrev pub front_job : ℕ → Scheduler → Option Job
front_job k s = elim s.transactions [ [] ↦ none | tx ∷ txs ↦ tx.job k ]

abbrev pub front_size : Scheduler → ℕ
front_size s = elim s.transactions [ [] ↦ 0 | tx ∷ txs ↦ tx.next_job ]

abbrev pub IsListed : ℕ → List (ℕ × List ℕ) → Type 0
IsListed k [] = ⊥
IsListed k ((p, js) ∷ m) = (contains k js ≡ true) ⊎ IsListed k m

-- The front transaction has the map of jobs `m`, and every job in it is allocated and of a type
-- that the log has a word for.
pub record IsReady (m : List (ℕ × List ℕ)) (s : Scheduler) : Type 0 where
  pub first : Transaction
  pub others : List Transaction
  pub queue : s.transactions ≡ first ∷ others
  pub jobs_are : first.jobs ≡ m
  pub live :
      (k : ℕ)
      → IsListed k m
      → (b : Job) × (front_job k s ≡ some b) × (index b.type < 5) × (k < front_size s)

first_job-contains : (js : List ℕ) {k : ℕ} → first_job js ≡ some k → contains k js ≡ true
unfolding first_job
first_job-contains [] found = cc
first_job-contains (j ∷ js) found = ground arith

pub job_for_name_in-IsListed :
    (g : Graph) (name : String) (m : List (ℕ × List ℕ)) (k : ℕ)
    → job_for_name_in g name m ≡ some k
    → IsListed k m
unfolding job_for_name_in first_job
job_for_name_in-IsListed g name [] k found = cc
job_for_name_in-IsListed g name ((p, js) ∷ m) k found = elim (Bool-cases (names_object g name p)) [
  | inl here ↦ inl (first_job-contains js (ground arith))
  | inr later ↦ inr (job_for_name_in-IsListed g name m k (ground arith))
]

pub live-at :
    {m : List (ℕ × List ℕ)} {s : Scheduler} (ready : IsReady m s) (j : ℕ) (b : Job)
    → IsListed j m
    → front_job j s ≡ some b
    → (index b.type < 5) × (j < front_size s)
live-at ready j b listed at =
    let (c, c_at, named, below) = ready.live j listed in
    let same : c ≡ b = cc (c_at, at) in (rw (← same) named, below)

-- A change of one job.
module _ (m : List (ℕ × List ℕ)) (s u : Scheduler) (j : ℕ) (f : Job → Job) (ready : IsReady m s)
    (b : Job) (at : front_job j s ≡ some b) (named : index (f b).type < 5)
    (changed : u.transactions ≡ (change_front (modify_job j f) s).transactions) where
  changed_queue : u.transactions ≡ modify_job j f ready.first ∷ ready.others
  changed_queue = changed ∙ rw ready.queue refl

  front_was : front_job j s ≡ ready.first.job j
  front_was = rw ready.queue refl

  pub changed-IsReady : IsReady m u
  changed-IsReady = record {
    first = modify_job j f ready.first;
    others = ready.others;
    queue = changed_queue;
    jobs_are = ready.jobs_are;
    live = live;
  }
    where
      live :
          (k : ℕ)
          → IsListed k m
          → (c : Job) × (front_job k u ≡ some c) × (index c.type < 5) × (k < front_size u)
      live k listed =
          let (c, c_at, c_named, c_below) = ready.live k listed in
          let was : front_job k s ≡ ready.first.job k = rw ready.queue refl in
          let size : front_size s ≡ ready.first.next_job = rw ready.queue refl in
          let below : k < front_size u = rw changed_queue (ground arith) in
          elim (Bool-cases (j == k)) [
            | inl same ↦ (f b, rw changed_queue (ground arith), named, below)
            | inr other ↦ (c, rw changed_queue (ground arith), c_named, below)
          ]

  at_first : ready.first.job j ≡ some b
  at_first = sym front_was ∙ at

  hit : (modify_job j f ready.first).job j ≡ some (f b)
  hit = ground (arith, at_first)

  pub changed-at : front_job j u ≡ some (f b)
  changed-at = rw changed_queue hit

  never_more :
      runs_left (some (f b)) ≤ runs_left (some b)
      → (i : ℕ) → runs_left ((modify_job j f ready.first).job i) ≤ runs_left (ready.first.job i)
  never_more le i = elim (Bool-cases (j == i)) [
    | inl same ↦
        let e : j ≡ i = ground arith in
        subst (λ k. runs_left ((modify_job j f ready.first).job k) ≤ runs_left (ready.first.job k))
          e (rw (hit, at_first) le)
    | inr other ↦
        let kept : (modify_job j f ready.first).job i ≡ ready.first.job i = ground arith in
        rw kept (omega arith)
  ]

  pub changed-left :
      (d : ℕ)
      → j < front_size s
      → runs_left (some (f b)) + d ≤ runs_left (some b)
      → left u + d ≤ left s
  changed-left d below less =
      let size : front_size s ≡ ready.first.next_job = rw ready.queue refl in
      rw changed_queue (
        rw ready.queue (
          sum_below-less ready.first.next_job j d
            (λ k. runs_left ((modify_job j f ready.first).job k))
            (λ k. runs_left (ready.first.job k)) (never_more (omega arith)) (rw (← size) below)
            (rw (hit, at_first) less)))
