-- ===== src/Sched/Succeeds.antt =====
-- Where no object waits for itself, every object's first job succeeds once its transaction is enqueued.
use neo_init_ware.Common.{
  ℕ, zero, suc, ◌<◌, ◌≡◌, ◌++◌, String, true, some, List, [], ◌∷◌, lookup, contains,
  contains-append, get_elem?, ok, inl, inr, Bool-cases, Option-cases, arith,
}
use neo_init_ware.App.{Kernel}
use neo_init_ware.Objects.{Graph, Edge, names_object}
use neo_init_ware.Objects.Edges.{Owns}
use neo_init_ware.Objects.Resolve.{IsLive}
use neo_init_ware.Tx.{TaskState, Job, Gen, Transaction, job_for_name, job_for_name_in}
use neo_init_ware.Tx.JobType.{JobType}
use neo_init_ware.Tx.Generate.{new_transaction}
use neo_init_ware.Tx.Submit.{edges_of}
use neo_init_ware.Tx.Order.Walks.{Waits, Follows-next, OnCycle, here}
use neo_init_ware.Tx.Order.Search.{unvisited, unvisited-lt, Leading}
use neo_init_ware.Sched.{Scheduler, tx_enqueue}
use neo_init_ware.Sched.Runnable.{HeldBack}
use neo_init_ware.Sched.Queue.{queued}
use neo_init_ware.Sched.Ready.{IsReady, front_job, left}
use neo_init_ware.Sched.Leaves.{IsFull}
use neo_init_ware.Sched.Placed.{IsHead, IsPlaced, IsMirrored, job_for_name_in-IsHead}
use neo_init_ware.Sched.Drained.{IsDrained, has_succeeded, is_held, tx_enqueue_drains}

-- Every name of an object with a job leads to it.
abbrev pub IsNamed : Graph → List (ℕ × List ℕ) → Type 0
IsNamed g m =
    (n : String) (q j : ℕ)
    → IsHead q j m
    → names_object g n q ≡ true
    → lookup n g.m_aliases ≡ some q

owner-IsLive : (g : Graph) (p : ℕ) (e : Edge) → Owns e (edges_of p g) → IsLive g p
owner-IsLive g p e owns = elim (Option-cases (get_elem? g.heap p)) [
  | inl absent ↦ absurd (rw (absent, Owns) at owns)
  | inr live ↦ live
]

module _ (g : Graph) (m : List (ℕ × List ℕ)) (tx : Transaction) (jobs_are : tx.jobs ≡ m)
    (named : IsNamed g m) (acyclic : (p k : ℕ) → IsHead p k m → ¬ OnCycle g tx p) (s : Scheduler)
    (drained : IsDrained g m s) where
  -- The object that a job held back waits for.
  record Delays (p : ℕ) (e : Edge) (h : HeldBack g drained.first e) : Type 0 where
    pub object : ℕ
    pub head : IsHead object h.other m
    pub waits : Waits g tx p object

  HeldBack-Delays :
      (p : ℕ) (e : Edge) → Owns e (edges_of p g) → (h : HeldBack g drained.first e) → Delays p e h
  unfolding job_for_name
  HeldBack-Delays p e owns h =
      let found : job_for_name_in g e.to m ≡ some h.other = rw (← drained.jobs_are) h.found in
      let (q, head, names) = job_for_name_in-IsHead g e.to m h.other found in
      let in_tx : job_for_name g e.to tx ≡ some h.other = rw jobs_are found in
      record {
        object = q;
        head = head;
        waits = record {
          edge = e;
          owns = owns;
          leads = record {
            is_after = h.is_after;
            has_job = λ absent. cc (in_tx, absent);
            resolves = named e.to q h.other head names;
          };
        };
      }

  -- A walk of jobs that wait cannot be longer than there are objects.
  head_succeeds :
      (bound p k : ℕ) (path : List ℕ) (b : Job)
      → IsHead p k m
      → Leading g tx path p
      → unvisited g path < bound
      → drained.first.job k ≡ some b
      → b.state ≡ TaskState.success
  head_succeeds zero p k path b head leading small at = absurd (omega (arith, small))
  head_succeeds (suc bound) p k path b head leading small at =
      let (c, c_at, rests) = drained.rests p k head in
      let same : c ≡ b = cc (c_at, at) in
      elim rests [
        | has_succeeded done ↦ rw (← same) done
        | is_held waits e owns h ↦
            let d = HeldBack-Delays p e owns h in
            elim (Bool-cases (contains p path)) [
              | inl met ↦ absurd (acyclic p k head (leading p met))
              | inr off ↦
                  let onward : Leading g tx (path ++ (p ∷ [])) d.object = λ x met.
                    elim (Bool-cases (contains x path)) [
                      | inl old ↦ Follows-next g tx x p d.object (leading x old) d.waits
                      | inr new ↦
                          let p_is : p ≡ x = ground (arith, contains-append x path (p ∷ [])) in
                          rw (← p_is) (record { via = d.object; step = d.waits; walk = here })
                    ] in
                  let fewer = unvisited-lt g p path (owner-IsLive g p e owns) off in
                  absurd (
                    h.not_succeeded (
                      head_succeeds bound d.object h.other (path ++ (p ∷ [])) h.job d.head onward
                        (omega (arith, fewer, small)) h.job_at))
            ]
      ]

  pub first_jobs_succeed :
      (p k : ℕ)
      → IsHead p k m
      → (b : Job) × (front_job k s ≡ some b) × (b.state ≡ TaskState.success)
  first_jobs_succeed p k head =
      let (b, at, rests) = drained.rests p k head in
      (
        b,
        rw drained.queue at,
        head_succeeds (suc (unvisited g [])) p k [] b head (λ x met. cc) (omega arith) at,
      )

-- Where a transaction is generated and the kernel accepts every timer, and the transaction at the
-- front, once the new one is in the queue, has live jobs of loggable types and a job for each of
-- its objects, the first job of every object is of that object and awaits its run or has
-- succeeded, every After edge between two of these objects is recorded at its target too, every
-- name of such an object leads to it, and none of them is on an ordering cycle, `tx_enqueue`
-- returns and the first job of each of them has succeeded.
pub tx_enqueue_succeeds :
    (kernel : Kernel) (m : List (ℕ × List ℕ)) (p : ℕ) (op : JobType) (s : Scheduler) (made : Gen)
    (tx : Transaction)
    → ((n : ℕ) → kernel n ≡ true)
    → new_transaction p op s.graph ≡ ok made
    → IsReady m (queued s made)
    → IsFull m m
    → IsPlaced made.graph m (queued s made)
    → IsMirrored made.graph m
    → IsNamed made.graph m
    → tx.jobs ≡ m
    → ((q k : ℕ) → IsHead q k m → ¬ OnCycle made.graph tx q)
    → (t : Scheduler) × (tx_enqueue kernel (left (queued s made)) p op s ≡ ok t)
      × ((q k : ℕ)
          → IsHead q k m
          → (b : Job) × (front_job k t ≡ some b) × (b.state ≡ TaskState.success))
tx_enqueue_succeeds kernel m p op s made tx willing is_made ready full placed mirrored named
      jobs_are acyclic =
    let (t, runs, drained) =
      tx_enqueue_drains kernel m p op s made willing is_made ready full placed mirrored in
    (t, runs, first_jobs_succeed made.graph m tx jobs_are named acyclic t drained)
