-- ===== src/Tests/Drained.antt =====
-- Starting a, which requires b and runs after it, runs them both.
use neo_init_ware.Common.{
  ℕ, zero, suc, ◌<◌, ◌≤◌, ◌≡◌, ◌||◌, refl, subst, true, some, [], ok, inl, inr, arith, lookup,
  eq_iff,
}
use neo_init_ware.Objects.{names_object, has_flag}
use neo_init_ware.Tx.{TaskState, Job, job_for_name_in, first_job}
use neo_init_ware.Tx.JobType.{start}
use neo_init_ware.Tx.Order.Walks.{Waits, Reach, OnCycle, here, next}
use neo_init_ware.Sched.{Scheduler, tx_enqueue, is_awaiting, is_success}
use neo_init_ware.Sched.Queue.{queued}
use neo_init_ware.Sched.Ready.{front_job, left}
use neo_init_ware.Sched.Placed.{IsHead, IsPlaced, IsMirrored, Awaits, Wakes}
use neo_init_ware.Sched.Drained.{IsDrained, tx_enqueue_drains}
use neo_init_ware.Sched.Succeeds.{IsNamed, tx_enqueue_succeeds}
use neo_init_ware.Tests.Samples.{pair, edge_a_b}
use neo_init_ware.Tests.Sched.{willing, idle, made, made_job, made-IsReady, jobs}

pub made-IsPlaced : IsPlaced pair jobs (queued idle made)
unfolding made
made-IsPlaced = record {
  first = made.tx;
  others = [];
  queue = refl;
  graph_is = refl;
  jobs_are = refl;
  homed = homed;
}
  where
    homed :
        (p k : ℕ)
        → IsHead p k jobs
        → (b : Job) × (made.tx.job k ≡ some b)
          × (b.object ≡ p)
          × ((is_awaiting b.state || is_success b.state) ≡ true)
    homed p k (inl (home, job)) = rw (home, job) (made_job 1, refl, refl, refl)
    homed p k (inr (inl (home, job))) = rw (home, job) (made_job 0, refl, refl, refl)
    homed p k (inr (inr none_left)) = absurd none_left

-- b is the only object that another one awaits.
only_b_is_ahead : (j : ℕ) → Awaits pair jobs 1 j → j ≡ 1
unfolding job_for_name_in first_job
only_b_is_ahead j w = elim w.owns [
  | inl this ↦
      let found : job_for_name_in pair edge_a_b.to jobs ≡ some j =
        subst (λ e. job_for_name_in pair e.to jobs ≡ some j) this w.found in
      ground arith
  | inr nothing ↦ absurd nothing
]

edge_reaches_b : Wakes pair jobs 0 0
unfolding job_for_name_in first_job has_flag
edge_reaches_b = record { edge = edge_a_b; owns = inl refl; is_after = refl; found = refl }

pub jobs-IsMirrored : IsMirrored pair jobs
jobs-IsMirrored p k q j (inl (p_is, k_is)) later w =
    let w' = subst (λ x. Awaits pair jobs x j) p_is w in absurd w'.owns
jobs-IsMirrored p k q j (inr (inl (p_is, k_is))) (inl (q_is, j_is)) w =
    rw (q_is, k_is) edge_reaches_b
jobs-IsMirrored p k q j (inr (inl (p_is, k_is))) (inr (inl (q_is, j_is))) w =
    absurd (omega (arith, j_is, only_b_is_ahead j (subst (λ x. Awaits pair jobs x j) p_is w)))
jobs-IsMirrored p k q j (inr (inl second)) (inr (inr none_left)) w = absurd none_left
jobs-IsMirrored p k q j (inr (inr none_left)) later w = absurd none_left

pub jobs-IsNamed : IsNamed pair jobs
jobs-IsNamed n q j (inl (home, job)) names =
    let rewritten : names_object pair n 0 ≡ true =
      subst (λ x. names_object pair n x ≡ true) home names in
    rw home (ground (arith, eq_iff n "b", eq_iff "b" n))
jobs-IsNamed n q j (inr (inl (home, job))) names =
    let rewritten : names_object pair n 1 ≡ true =
      subst (λ x. names_object pair n x ≡ true) home names in
    let n_is : n ≡ "default.target" =
      ground (arith, eq_iff n "default.target", eq_iff "default.target" n) in
    rw (n_is, home) refl
jobs-IsNamed n q j (inr (inr none_left)) names = absurd none_left

Waits-lt : (p q : ℕ) → Waits pair made.tx p q → q < p
Waits-lt zero q w = absurd w.owns
Waits-lt (suc zero) q w = elim w.owns [
  | inl this ↦
      let target : lookup edge_a_b.to pair.m_aliases ≡ some q =
        subst (λ e. lookup e.to pair.m_aliases ≡ some q) this w.leads.resolves in
      ground arith
  | inr nothing ↦ absurd nothing
]
Waits-lt (suc (suc p)) q w = absurd w.owns

Reach-le : (p q : ℕ) → Reach pair made.tx p q → q ≤ p
Reach-le p q here = omega arith
Reach-le p q (next {q = m} r w) = omega (arith, Reach-le p m r, Waits-lt m q w)

pub no_cycle : (q : ℕ) → ¬ OnCycle pair made.tx q
no_cycle q f = omega (arith, Waits-lt q f.via f.step, Reach-le f.via q f.walk)

tx_enqueue_drains_example :
    (t : Scheduler) × (tx_enqueue willing (left (queued idle made)) 1 start idle ≡ ok t)
    × IsDrained made.graph jobs t
unfolding made
tx_enqueue_drains_example =
    tx_enqueue_drains willing jobs 1 start idle made (λ n. refl) refl
      (made-IsReady (queued idle made) [] refl) (inl refl, (inr (inl refl), tt)) made-IsPlaced
      jobs-IsMirrored

tx_enqueue_succeeds_example :
    (t : Scheduler) × (tx_enqueue willing (left (queued idle made)) 1 start idle ≡ ok t)
    × ((q k : ℕ)
        → IsHead q k jobs
        → (b : Job) × (front_job k t ≡ some b) × (b.state ≡ TaskState.success))
unfolding made
tx_enqueue_succeeds_example =
    tx_enqueue_succeeds willing jobs 1 start idle made made.tx (λ n. refl) refl
      (made-IsReady (queued idle made) [] refl) (inl refl, (inr (inl refl), tt)) made-IsPlaced
      jobs-IsMirrored jobs-IsNamed refl (λ q k head. no_cycle q)
