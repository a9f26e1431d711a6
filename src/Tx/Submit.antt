-- ===== src/Tx/Submit.antt =====
-- `job_submit` and `EdgeVisitor` of cmd/schedulerd/scheduler/txgen.cc: the jobs and requirements
-- that a job brings with it.
mod Progress
mod Steps
mod Emplace
mod Measure
pub mod Complete
pub mod Ends
pub mod Whole
use neo_init_ware.Common.{
  ℕ, zero, suc, ◌==◌, ◌++◌, ◌>>=◌, ◌&&◌, String, Bool, true, false, Option, none, some, List, [],
  ◌∷◌, Result, ok, err, out_of_fuel, update, get_elem?, if◌then◌else◌,
}
use neo_init_ware.Objects.{Graph, Edge, has_flag, object_get}
use neo_init_ware.Objects.EdgeType
use neo_init_ware.Tx.JobType.{
  JobType, start, verify, stop, reload, restart, try_restart, try_reload, same_type, among,
}
use neo_init_ware.Tx.Model.{
  Job, new_job, Transaction, Gen, jobs_at, ensure_entry, set_jobs, modify_job, load_job, add_req,
}

-- An `EdgeVisitor`, less the transaction and the requiring job.
pub record Visitor : Type 0 where
  pub flag : ℕ
  pub op : JobType
  pub is_required : Bool

abbrev visit_by : ℕ → JobType → Bool → Visitor
visit_by flag op is_required = record { flag = flag; op = op; is_required = is_required }

-- The visitors that `job_submit` runs for a new job of a type, in their order.
unfoldable pub visitors : JobType → List Visitor
visitors op =
    (if among op (start ∷ restart ∷ try_restart ∷ [])
      then visit_by EdgeType.add_start start true
        ∷ visit_by EdgeType.add_start_nonreq start false
        ∷ visit_by EdgeType.add_verify verify true
        ∷ visit_by EdgeType.add_stop stop true
        ∷ visit_by EdgeType.add_stop_nonreq stop false
        ∷ []
      else if same_type op stop
      then visit_by EdgeType.propagates_stop_to stop true ∷ []
      else if among op (reload ∷ try_reload ∷ [])
      then visit_by EdgeType.propagates_reload_to try_reload true ∷ []
      else [])
    ++ (if among op (restart ∷ try_restart ∷ [])
        then visit_by EdgeType.propagates_restart_to try_restart true ∷ []
        else [])

-- The edges that leave an object: what `foreach_edge` goes through.
abbrev pub edges_of : ℕ → Graph → List Edge
edges_of p g = elim (get_elem? g.heap p) [ none ↦ [] | some o ↦ o.edges ]

-- The search for a job of the type in an object's list.
unfoldable pub find_type : JobType → List ℕ → Transaction → Option ℕ
find_type op [] tx = none
find_type op (j ∷ js) tx = elim (tx.job j) [
  | none ↦ find_type op js tx
  | some b ↦ if same_type b.type op then some j else find_type op js tx
]

abbrev mark_goal : Bool → ℕ → Transaction → Transaction
mark_goal goal j tx = if goal then modify_job j (λ b. record b { goal_required = true }) tx else tx

-- A new job at the end of the object's list. Its pointer is `next_job`.
unfoldable pub emplace_job : ℕ → JobType → Transaction → Transaction
unfolding new_job
emplace_job p op tx =
    let j = tx.next_job in
    let made = record tx { job = update tx.job j (some (new_job p op)); next_job = suc j } in
    set_jobs p (jobs_at p tx ++ (j ∷ [])) made

-- `job_submit(SPtr, JobType, bool)`, as the visitors call it.
abbrev pub Submit : Type 0
Submit = (object : ℕ) (op : JobType) (goal_required : Bool) → Gen → Result (ℕ × Gen)

module _ (submit : Submit) where
  -- `job_submit(ObjectId, JobType, bool)`. `object_get` never returns null.
  unfoldable pub submit_name : String → JobType → Bool → Gen → Result (ℕ × Gen)
  unfolding object_get
  submit_name name op goal s = do
    (p, g) ← object_get name s.graph
    submit p op goal (record s { graph = g })

  -- `EdgeVisitor::operator()`, where the edge has the flag.
  unfoldable pub follow_edge : Visitor → ℕ → Edge → Gen → Result Gen
  unfolding submit_name add_req
  follow_edge v requirer e s = do
    b ← load_job requirer s.tx
    let goal_required = b.goal_required && v.is_required
    (sj, s') ← submit_name e.to v.op goal_required s
    ok (record s' { tx = add_req requirer sj v.is_required goal_required s'.tx })

  unfoldable pub visit_edge : Visitor → ℕ → Edge → Gen → Result Gen
  unfolding follow_edge has_flag
  visit_edge v requirer e s = if has_flag v.flag e then follow_edge v requirer e s else ok s

  unfoldable pub visit_edges : Visitor → ℕ → List Edge → Gen → Result Gen
  unfolding visit_edge
  visit_edges v requirer [] s = ok s
  visit_edges v requirer (e ∷ es) s = do
    s' ← visit_edge v requirer e s
    visit_edges v requirer es s'

  unfoldable pub run_visitors : List Visitor → (object requirer : ℕ) → Gen → Result Gen
  unfolding visit_edges
  run_visitors [] p requirer s = ok s
  run_visitors (v ∷ vs) p requirer s = do
    s' ← visit_edges v requirer (edges_of p s.graph) s
    run_visitors vs p requirer s'

  -- What follows where the object has no job of the type.
  unfoldable pub submit_new : Submit
  unfolding emplace_job run_visitors visitors
  submit_new p op goal s = do
    let j = s.tx.next_job
    let tx = mark_goal goal j (emplace_job p op s.tx)
    s' ← run_visitors (visitors op) p j (record s { tx = tx })
    ok (j, s')

-- `job_submit(SPtr, JobType, bool)`
unfoldable pub job_submit : ℕ → Submit
unfolding find_type submit_new
job_submit zero p op goal s = err out_of_fuel
job_submit (suc fuel) p op goal s = elim (find_type op (jobs_at p s.tx) s.tx) [
  | some j ↦ ok (j, record s { tx = mark_goal goal j s.tx })
  | none ↦ submit_new (job_submit fuel) p op goal s
]
