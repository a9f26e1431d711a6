-- ===== src/Sched/Placed.antt =====
-- A scheduler whose front transaction has the jobs of a map on the objects of a graph, and which of
-- the first jobs of its objects may run.
use neo_init_ware.Common.{
  ℕ, String, ◌≡◌, ◌⊎◌, ◌||◌, refl, Bool, true, false, none, some, List, [], ◌∷◌, inl, inr,
  Bool-cases, arith,
}
use neo_init_ware.Objects.{Graph, Edge, has_flag, names_object}
use neo_init_ware.Objects.EdgeType
use neo_init_ware.Objects.Edges.{Owns}
use neo_init_ware.Tx.{Job, Transaction, first_job, job_for_name_in}
use neo_init_ware.Tx.Submit.{edges_of}
use neo_init_ware.Sched.{Scheduler, edges_to_of, is_awaiting, is_success, job_runnable}

-- `k` is the first job of the object `p`.
abbrev pub IsHead : (p k : ℕ) → List (ℕ × List ℕ) → Type 0
IsHead p k [] = ⊥
IsHead p k ((q, []) ∷ m) = IsHead p k m
IsHead p k ((q, j ∷ js) ∷ m) = ((p ≡ q) × (k ≡ j)) ⊎ IsHead p k m

pub job_for_name_in-IsHead :
    (g : Graph) (name : String) (m : List (ℕ × List ℕ)) (k : ℕ)
    → job_for_name_in g name m ≡ some k
    → (p : ℕ) × IsHead p k m × (names_object g name p ≡ true)
unfolding job_for_name_in first_job
job_for_name_in-IsHead g name [] k found = cc
job_for_name_in-IsHead g name ((p, []) ∷ m) k found = elim (Bool-cases (names_object g name p)) [
  | inl here ↦ absurd (ground arith)
  | inr later ↦ job_for_name_in-IsHead g name m k (ground arith)
]
job_for_name_in-IsHead g name ((p, j ∷ js) ∷ m) k found =
    elim (Bool-cases (names_object g name p)) [
      | inl here ↦ (p, inl (refl, ground arith), here)
      | inr later ↦
          let (q, head, named) = job_for_name_in-IsHead g name m k (ground arith) in
          (q, inr head, named)
    ]

-- Whether the job may run, as `job_runnable` decides it.
unfoldable pub may_run : Graph → Transaction → ℕ → Bool
may_run g tx k = elim (tx.job k) [ none ↦ false | some b ↦ job_runnable g tx b ]

pub may_run-at :
    (g : Graph) (tx : Transaction) (k : ℕ) (b : Job)
    → tx.job k ≡ some b
    → may_run g tx k ≡ job_runnable g tx b
unfolding may_run
may_run-at g tx k b at = rw (at, may_run) refl

module _ (g : Graph) (m : List (ℕ × List ℕ)) where
  -- An After edge of `p` leads to the name of an object whose first job is `j`.
  pub record Awaits (p j : ℕ) : Type 0 where
    pub edge : Edge
    pub owns : Owns edge (edges_of p g)
    pub is_after : has_flag EdgeType.after edge ≡ true
    pub found : job_for_name_in g edge.to m ≡ some j

  -- An After edge that reaches `q` comes from the name of an object whose first job is `k`.
  pub record Wakes (q k : ℕ) : Type 0 where
    pub edge : Edge
    pub owns : Owns edge (edges_to_of q g)
    pub is_after : has_flag EdgeType.after edge ≡ true
    pub found : job_for_name_in g edge.from m ≡ some k

  -- Every After edge between two objects with jobs is recorded at its target too.
  abbrev pub IsMirrored : Type 0
  IsMirrored = (p k q j : ℕ) → IsHead p k m → IsHead q j m → Awaits p j → Wakes q k

  pub record IsPlaced (s : Scheduler) : Type 0 where
    pub first : Transaction
    pub others : List Transaction
    pub queue : s.transactions ≡ first ∷ others
    pub graph_is : s.graph ≡ g
    pub jobs_are : first.jobs ≡ m
    pub homed :
        (p k : ℕ)
        → IsHead p k m
        → (b : Job) × (first.job k ≡ some b)
          × (b.object ≡ p)
          × ((is_awaiting b.state || is_success b.state) ≡ true)
