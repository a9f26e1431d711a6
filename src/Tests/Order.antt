-- ===== src/Tests/Order.antt =====
-- Ordering on small graphs, and a transaction that is accepted with a cycle.
use neo_init_ware.Common.{
  ℕ, zero, suc, ◌<◌, ◌≤◌, subst, ◌≡◌, refl, ◌++◌, ◌>>=◌, true, false, some, none, Bool, List, [],
  ◌∷◌, Result, ok, inl, inr, arith, Bool-cases, same_name, eq_iff, lookup, update, err, thrown,
}
use neo_init_ware.Objects.{Graph, no_objects, object_load}
use neo_init_ware.Objects.EdgeType
use neo_init_ware.Objects.Resolve.{AliasesLive}
use neo_init_ware.Objects.Sound.{IsSound-AliasesLive}
use neo_init_ware.Tx.JobType.{start}
use neo_init_ware.Tx.{Gen, Transaction, empty_tx, new_job, job_for_name}
use neo_init_ware.Tx.Generate.{new_transaction}
use neo_init_ware.Tx.Order.{Found, object_creates_cycle, search_fuel}
use neo_init_ware.Tx.Order.Walks.{Waits, Reach, OnCycle, IsClosed, here, next}
use neo_init_ware.Tx.Order.Search.{object_creates_cycle_decides}
use neo_init_ware.Tests.Samples.{unit, pair, pair-IsSound, want_after, require_after, edge_a_b}

-- A start job for each of a and b.
abbrev pair_tx : Transaction
unfolding new_job
pair_tx = record empty_tx {
  jobs = (0, 0 ∷ []) ∷ (1, 1 ∷ []) ∷ [];
  job = update (update (λ _. none) 0 (some (new_job 0 start))) 1 (some (new_job 1 start));
  next_job = 2;
}

pair-IsClosed : IsClosed pair pair_tx
unfolding job_for_name new_job
pair-IsClosed n busy = elim (Bool-cases (same_name n "b")) [
  | inl b ↦ (0, ground (arith, eq_iff n "b", eq_iff "b" n))
  | inr not_b ↦ elim (Bool-cases (same_name n "default.target")) [
    | inl a ↦ (
      1,
      ground
          (arith, eq_iff n "default.target", eq_iff "default.target" n, eq_iff "b" n, eq_iff n "b"),
    )
    | inr not_a ↦ absurd (busy (ground arith))
  ]
]

abbrev pair_names : AliasesLive pair
pair_names = IsSound-AliasesLive pair-IsSound

object_creates_cycle_decides_example :
    (s : Found) × (object_creates_cycle (search_fuel pair) pair_tx 1 [] pair ≡ ok s)
    × (s.graph ≡ pair)
    × (s.cyclic ≡ false
        → (s.path ≡ []) × ((q : ℕ) → Reach pair pair_tx 1 q → ¬ OnCycle pair pair_tx q))
    × (s.cyclic ≡ true → (q : ℕ) × Reach pair pair_tx 1 q × OnCycle pair pair_tx q)
object_creates_cycle_decides_example =
    object_creates_cycle_decides pair pair_tx 1 pair_names pair-IsClosed (_, refl)

Waits-lt : (p q : ℕ) → Waits pair pair_tx p q → q < p
Waits-lt zero q w = absurd w.owns
Waits-lt (suc zero) q w = elim w.owns [
  | inl this ↦
      let target : lookup edge_a_b.to pair.m_aliases ≡ some q =
        subst (λ e. lookup e.to pair.m_aliases ≡ some q) this w.leads.resolves in
      ground arith
  | inr nothing ↦ absurd nothing
]
Waits-lt (suc (suc p)) q w = absurd w.owns

Reach-le : (p q : ℕ) → Reach pair pair_tx p q → q ≤ p
Reach-le p q here = omega arith
Reach-le p q (next {q = m} r w) = omega (arith, Reach-le p m r, Waits-lt m q w)

pair-no_cycle : (q : ℕ) → ¬ OnCycle pair pair_tx q
pair-no_cycle q f = omega (arith, Waits-lt q f.via f.step, Reach-le f.via q f.walk)

abbrev pair_gen : Gen
pair_gen = record { graph = pair; tx = pair_tx }

abbrev jobs_of : Result Gen → Result (List (ℕ × List ℕ))
jobs_of r = do s ← r; ok s.tx.jobs

-- a wants x and requires b, and b wants y. a and b run after one another, and each after its own
-- helper and the helper after it.
abbrev knot : Result Graph
knot = do
  g1 ← unit "a" (("x", want_after) ∷ ("b", require_after) ∷ []) no_objects
  g2 ← unit "b" (("y", want_after) ∷ ("a", EdgeType.after) ∷ []) g1
  g3 ← unit "x" (("a", EdgeType.after) ∷ []) g2
  unit "y" (("b", EdgeType.after) ∷ []) g3

-- The transaction is accepted without the helpers, though a and b still wait for one another.
knot_accepted :
    jobs_of (knot >>= λ g. new_transaction 0 start g)
    ≡ ok ((0, 0 ∷ []) ∷ (3, 1 ∷ []) ∷ (5, []) ∷ (6, []) ∷ [])
unfolding new_transaction object_load
knot_accepted = refl

-- Without the helpers it is refused.
loop_refused :
    jobs_of (do
      g1 ← unit "a" (("b", require_after) ∷ []) no_objects
      g2 ← unit "b" (("a", EdgeType.after) ∷ []) g1
      new_transaction 0 start g2)
    ≡ err (thrown "Transaction is unresolveably cyclical")
unfolding new_transaction object_load
loop_refused = refl

-- a requires c and then b; c wants b, and b requires d. The job on b is needed for the goal, but
-- the requirement of b on d was made before that was known.
late_goal : Result Gen
unfolding new_transaction object_load
late_goal = do
  g1 ← unit "a" (("c", EdgeType.add_start) ∷ ("b", EdgeType.add_start) ∷ []) no_objects
  g2 ← unit "c" (("b", EdgeType.add_start_nonreq) ∷ []) g1
  g3 ← unit "b" (("d", EdgeType.add_start) ∷ []) g2
  new_transaction 0 start g3

abbrev goal_flags : Gen → List Bool
goal_flags s = flag 0 ++ (flag 1 ++ (flag 2 ++ flag 3))
  where
    flag : ℕ → List Bool
    flag j = elim (s.tx.job j) [ none ↦ [] | some b ↦ b.goal_required ∷ [] ]

-- The jobs are on a, c, b and d.
late_goal_flags : (late_goal >>= λ s. ok (goal_flags s)) ≡ ok (true ∷ true ∷ true ∷ false ∷ [])
unfolding late_goal
late_goal_flags = refl
