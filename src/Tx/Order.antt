-- ===== src/Tx/Order.antt =====
-- Ordering cycles and their removal: `OrderVisitor`, `object_creates_cycle`,
-- `object_requires_all_jobs`, `try_remove_cycle` and `verify_acyclic` of
-- cmd/schedulerd/scheduler/txgen.cc.
pub mod Walks
pub mod Search
pub mod Verify
use neo_init_ware.Common.{
  ℕ, zero, suc, ◌==◌, ◌++◌, ◌>>=◌, Bool, true, false, none, some, List, [], ◌∷◌, Result, ok, err,
  out_of_fuel, contains, length, if◌then◌else◌,
}
use mathlib.Core.List.{reverse}
use neo_init_ware.Objects.{Graph, Edge, has_flag, object_get}
use neo_init_ware.Objects.EdgeType
use neo_init_ware.Tx.Model.{
  Transaction, Gen, jobs_at, ensure_entry, load_job, load_req, job_for_name,
}
use neo_init_ware.Tx.Submit.{edges_of}
use neo_init_ware.Tx.Delete.{object_del_jobs}

-- What the search returns: whether there is a cycle, and the path and the objects as they are then.
pub record Found : Type 0 where
  pub cyclic : Bool
  pub path : List ℕ
  pub graph : Graph

abbrev pub CreatesCycle : Type 0
CreatesCycle = ℕ → List ℕ → Graph → Result Found

module _ (tx : Transaction) (creates_cycle : CreatesCycle) where
  -- The branch of `OrderVisitor` for an After edge whose target has a job.
  unfoldable pub follow_order : Edge → Found → Result Found
  unfolding object_get
  follow_order e s = do (p, g) ← object_get e.to s.graph; creates_cycle p s.path g

  abbrev pub wants_order : Edge → Found → Bool
  wants_order e s =
      if has_flag EdgeType.after e
      then (if s.cyclic
          then false
          else (elim (job_for_name s.graph e.to tx) [ none ↦ false | some _ ↦ true ]))
      else false

  -- `OrderVisitor::operator()`. The search reports no cycle as long as none is found, so its answer
  -- is the new value of `cyclic`.
  unfoldable pub visit_order : Edge → Found → Result Found
  unfolding follow_order job_for_name
  visit_order e s = if wants_order e s then follow_order e s else ok s

  unfoldable pub visit_orders : List Edge → Found → Result Found
  unfolding visit_order
  visit_orders [] s = ok s
  visit_orders (e ∷ es) s = do s' ← visit_order e s; visit_orders es s'

abbrev pub drop_last : List ℕ → List ℕ
drop_last [] = []
drop_last (x ∷ []) = []
drop_last (x ∷ y ∷ xs) = x ∷ drop_last (y ∷ xs)

-- The end of the search: the object leaves the path if no cycle was found.
abbrev pub leave : Found → Found
leave s = if s.cyclic then s else record s { path = drop_last s.path }

-- `Transaction::object_creates_cycle`
unfoldable pub object_creates_cycle : ℕ → Transaction → CreatesCycle
unfolding visit_orders
object_creates_cycle zero tx p path g = err out_of_fuel
object_creates_cycle (suc fuel) tx p path g =
    let visited =
      visit_orders tx (object_creates_cycle fuel tx) (edges_of p g)
        (record { cyclic = false; path = path ++ (p ∷ []); graph = g }) in
    if contains p path
    then ok (record { cyclic = true; path = path; graph = g })
    else (visited >>= λ s. ok (leave s))

-- The inner loop of `object_requires_all_jobs`.
unfoldable pub has_goal_req : List ℕ → Transaction → Result Bool
has_goal_req [] tx = ok false
has_goal_req (r ∷ rs) tx = do
  q ← load_req r tx
  if q.goal_required then ok true else has_goal_req rs tx

abbrev is_objective : ℕ → Transaction → Bool
is_objective j tx = elim tx.objective [ none ↦ false | some k ↦ j == k ]

unfoldable pub requires_jobs : List ℕ → Transaction → Result Bool
unfolding has_goal_req
requires_jobs [] tx = ok false
requires_jobs (j ∷ js) tx = do
  b ← load_job j tx
  let rest = requires_jobs js tx
  let others = has_goal_req b.reqs_on tx >>= λ goal. if goal then ok true else rest
  if is_objective j tx then ok true else others

-- `Transaction::object_requires_all_jobs`
unfoldable pub object_requires_all_jobs : ℕ → Transaction → Result Bool
unfolding requires_jobs
object_requires_all_jobs p tx = requires_jobs (jobs_at p tx) tx

-- The loop of `try_remove_cycle`, over the reversed path.
unfoldable pub remove_from : List ℕ → Transaction → Result (Bool × Transaction)
unfolding object_requires_all_jobs object_del_jobs
remove_from [] tx = ok (false, tx)
remove_from (p ∷ ps) tx = do
  essential ← object_requires_all_jobs p tx
  let ensured = ensure_entry p tx
  let rest = remove_from ps ensured
  let deleted = object_del_jobs p ensured >>= λ tx'. ok (true, tx')
  if essential then rest else deleted

-- `Transaction::try_remove_cycle`
unfoldable pub try_remove_cycle : List ℕ → Transaction → Result (Bool × Transaction)
unfolding remove_from
try_remove_cycle path tx = remove_from (reverse path) tx

-- Fuel for a search: a path has no object twice.
unfoldable pub search_fuel : Graph → ℕ
search_fuel g = suc (suc (length g.heap))

-- What one entry of the map leads to: whether the loop goes on, and the state.
unfoldable pub check_object : ℕ → Gen → Result (Bool × Gen)
unfolding search_fuel object_creates_cycle try_remove_cycle
check_object p s = elim (jobs_at p s.tx) [
  | [] ↦ ok (true, s)
  | j ∷ _ ↦ do
    b ← load_job j s.tx
    found ← object_creates_cycle (search_fuel s.graph) s.tx b.object [] s.graph
    (resolved, tx) ← (if found.cyclic then try_remove_cycle found.path s.tx else ok (true, s.tx))
    ok (resolved, record { graph = found.graph; tx = tx })
]

-- `Transaction::verify_acyclic`, over the entries of the map.
unfoldable pub verify_objects : List ℕ → Gen → Result (Bool × Gen)
unfolding check_object
verify_objects [] s = ok (true, s)
verify_objects (p ∷ ps) s = do
  (resolved, s') ← check_object p s
  let rest = verify_objects ps s'
  if resolved then rest else ok (false, s')

unfoldable pub keys : List (ℕ × List ℕ) → List ℕ
keys [] = []
keys ((p, js) ∷ m) = p ∷ keys m

unfoldable pub verify_acyclic : Gen → Result (Bool × Gen)
unfolding verify_objects keys
verify_acyclic s = verify_objects (keys s.tx.jobs) s
