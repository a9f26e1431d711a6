-- ===== src/Output.antt =====
-- What the scheduler prints: the `to_graph`, `print` and string functions of
-- cmd/schedulerd/scheduler/scheduler.cc, txgen.cc and tx.cc, and the text of `log_job_complete`.
-- What goes to a stream is the list of the pieces that are written; a number is a piece of its own.
pub mod Words
use neo_init_ware.Common.{
  ℕ, ◌++◌, ◌>>=◌, ◌>>◌, String, Bool, true, false, none, some, List, [], ◌∷◌, Result, ok, err,
  undefined, assert_failed, get_elem?, if◌then◌else◌,
}
use neo_init_ware.Objects.{Graph, Edge, Schedulable, State, has_flag}
use neo_init_ware.Objects.EdgeType
use neo_init_ware.Tx.JobType.{JobType, start, verify, stop, reload, restart, type_str}
use neo_init_ware.Tx.{
  TaskState, TaskId, unassigned, assigned, Job, Requirement, Transaction, load_job, load_req,
}

pub data Piece : Type 0 where
  word : String → Piece
  num : ℕ → Piece

abbrev pub Text : Type 0
Text = List Piece

-- The table of `Edge::type_str`, in the order of its keys.
unfoldable pub type_table : List (ℕ × String)
type_table =
    (EdgeType.add_start, "Require")
    ∷ (EdgeType.add_start_nonreq, "Want")
    ∷ (EdgeType.add_verify, "Requisite")
    ∷ (EdgeType.add_stop, "Conflict")
    ∷ (EdgeType.add_stop_nonreq, "ConflictedBy")
    ∷ (EdgeType.propagates_stop_to, "PropagatesStopTo")
    ∷ (EdgeType.propagates_restart_to, "PropagatesRestartTo")
    ∷ (EdgeType.propagates_reload_to, "PropagatesReloadTo")
    ∷ (EdgeType.start_on_started, "StartOnStarted")
    ∷ (EdgeType.try_start_on_started, "TryStartOnStarted")
    ∷ (EdgeType.stop_on_started, "StopOnStarted")
    ∷ (EdgeType.stop_on_stopped, "BoundBy")
    ∷ (EdgeType.on_success, "OnSuccess")
    ∷ (EdgeType.on_failure, "OnFailure")
    ∷ (EdgeType.after, "After")
    ∷ (EdgeType.before, "Before")
    ∷ []

-- The loop of `Edge::type_str`, from a row of the table on.
unfoldable pub type_words : Edge → (first : Bool) → List (ℕ × String) → List String
unfolding has_flag
type_words e first [] = []
type_words e first ((flag, name) ∷ rows) =
    if has_flag flag e
    then (if first then name ∷ type_words e false rows else "\\n" ∷ name ∷ type_words e false rows)
    else type_words e first rows

unfoldable pub edge_type_str : Edge → List String
unfolding type_words type_table
edge_type_str e = type_words e true type_table

abbrev words : List String → Text
words [] = []
words (w ∷ ws) = word w ∷ words ws

-- `Edge::to_graph`
unfoldable pub edge_to_graph : Edge → Text
unfolding edge_type_str
edge_to_graph e =
    words (e.from ∷ " -> " ∷ e.to ∷ "[label=\"" ∷ [])
    ++ (words (edge_type_str e) ++ words ("\"];\n" ∷ []))

unfoldable pub edges_to_graph : List Edge → Text
unfolding edge_to_graph
edges_to_graph [] = []
edges_to_graph (e ∷ es) = edge_to_graph e ++ edges_to_graph es

-- `Schedulable::to_graph`
unfoldable pub object_to_graph : Schedulable → Text
unfolding edges_to_graph
object_to_graph o = words (o.main_alias ∷ ";\n" ∷ []) ++ edges_to_graph o.edges_to

unfoldable pub objects_to_graph : List ℕ → Graph → Text
unfolding object_to_graph
objects_to_graph [] g = []
objects_to_graph (p ∷ ps) g = elim (get_elem? g.heap p) [
  | none ↦ objects_to_graph ps g
  | some o ↦ object_to_graph o ++ objects_to_graph ps g
]

-- `Scheduler::to_graph`
unfoldable pub sched_to_graph : Graph → Text
unfolding objects_to_graph
sched_to_graph g =
    words ("digraph sched {\n" ∷ []) ++ (objects_to_graph g.objects g ++ words ("}\n" ∷ []))

-- `Schedulable::state_str`
unfoldable pub state_str : State → String
state_str State.uninitialised = "Uninitialised"
state_str State.offline = "Offline"
state_str State.starting = "Starting"
state_str State.online = "Online"
state_str State.stopping = "Stopping"
state_str State.maintenance = "Maintenance"
state_str State.k_max = "<invalid>"

-- The name of the object behind a pointer.
abbrev name_of : ℕ → Graph → Result String
name_of p g = elim (get_elem? g.heap p) [ none ↦ err undefined | some o ↦ ok o.main_alias ]

abbrev id_text : TaskId → Piece
id_text unassigned = word "-1"
id_text (assigned n) = num n

-- `Job::print`
unfoldable pub print : Graph → Job → Result Text
unfolding type_str
print g b = do
  name ← name_of b.object g
  ok (id_text b.id ∷ words ("/" ∷ name ∷ "/" ∷ type_str (some b.type) ∷ []))

abbrev bool_text : Bool → Piece
bool_text true = word "1"
bool_text false = word "0"

abbrev node_name : Graph → Job → Result Text
unfolding type_str
node_name g b = do name ← name_of b.object g; ok (words (name ∷ type_str (some b.type) ∷ []))

-- The part of `Job::to_graph` that shows the job.
unfoldable pub node_to_graph : Graph → Job → Result Text
unfolding print type_str
node_to_graph g b = do
  node ← node_name g b
  label ← print g b
  ok (node ++ (words ("[label=\"" ∷ []) ++ (label ++ words ("\"];\n" ∷ []))))

-- The part of `Job::to_graph` that shows the job's requirements.
unfoldable pub reqs_to_graph : Graph → Transaction → Job → List ℕ → Result Text
unfolding type_str
reqs_to_graph g tx b [] = ok []
reqs_to_graph g tx b (r ∷ rs) = do
  q ← load_req r tx
  to ← load_job q.to tx
  node ← node_name g b
  to_node ← node_name g to
  rest ← reqs_to_graph g tx b rs
  ok (
      node
      ++ (words (" -> " ∷ [])
          ++ (to_node
              ++ (word " "
                  ∷ word "[label=\"req="
                  ∷ bool_text q.required
                  ∷ word ",goalreq="
                  ∷ bool_text q.goal_required
                  ∷ word "\"]"
                  ∷ word ";\n"
                  ∷ rest))))

unfoldable pub nodes_to_graph : Graph → Transaction → List ℕ → Result Text
unfolding node_to_graph
nodes_to_graph g tx [] = ok []
nodes_to_graph g tx (j ∷ js) = do
  b ← load_job j tx
  node ← node_to_graph g b
  rest ← nodes_to_graph g tx js
  ok (node ++ rest)

unfoldable pub arrows_to_graph : Graph → Transaction → List ℕ → Result Text
unfolding reqs_to_graph
arrows_to_graph g tx [] = ok []
arrows_to_graph g tx (j ∷ js) = do
  b ← load_job j tx
  arrows ← reqs_to_graph g tx b b.reqs
  rest ← arrows_to_graph g tx js
  ok (arrows ++ rest)

-- The two loops of `Transaction::to_graph`.
unfoldable pub clusters_to_graph : Graph → Transaction → List (ℕ × List ℕ) → Result Text
unfolding nodes_to_graph
clusters_to_graph g tx [] = ok []
clusters_to_graph g tx ((p, js) ∷ m) = do
  name ← name_of p g
  nodes ← nodes_to_graph g tx js
  rest ← clusters_to_graph g tx m
  ok (
      words (
        "subgraph cluster_" ∷ name ∷ " {\n" ∷ "label=\"" ∷ name ∷ "\";\n" ∷ "color=lightgrey;\n"
        ∷ [])
      ++ (nodes ++ (word "}\n" ∷ rest)))

unfoldable pub links_to_graph : Graph → Transaction → List (ℕ × List ℕ) → Result Text
unfolding arrows_to_graph
links_to_graph g tx [] = ok []
links_to_graph g tx ((p, js) ∷ m) = do
  arrows ← arrows_to_graph g tx js
  rest ← links_to_graph g tx m
  ok (arrows ++ rest)

-- `Transaction::to_graph`
unfoldable pub tx_to_graph : Graph → Transaction → Result Text
unfolding clusters_to_graph links_to_graph
tx_to_graph g tx = do
  clusters ← clusters_to_graph g tx tx.jobs
  links ← links_to_graph g tx tx.jobs
  ok (
      words ("digraph TX {\n" ∷ "graph [compound=true];\n" ∷ [])
      ++ (clusters ++ (links ++ words ("}\n" ∷ []))))

-- What `log_job_complete` prints, less the padding of the two columns.
pub record LogLine : Type 0 where
  pub msg_col : Text
  pub code_col : Text

-- `job_op_root`, which ends with `kRestart`.
unfoldable pub op_root : JobType → Result String
op_root start = ok "Start"
op_root verify = ok "Verify"
op_root stop = ok "Stopp"
op_root reload = ok "Reload"
op_root restart = ok "Restart"
op_root _ = err undefined

abbrev code_of : (code msg : String) → Text
code_of code msg = words ("[" ∷ code ∷ msg ∷ "\u{1b}[0m" ∷ "]" ∷ [])

abbrev log_line : (before op after name code msg : String) → LogLine
log_line before op after name code msg = record {
  msg_col = words (before ∷ op ∷ after ∷ " " ∷ name ∷ []);
  code_col = code_of code msg;
}

abbrev green : String
green = "\u{1b}[0;1;32m"

abbrev red : String
red = "\u{1b}[0;1;33m"

-- The text of `Scheduler::log_job_complete`. The operation is read in its table first, then the
-- state decides.
unfoldable pub log_text : Graph → Job → Result LogLine
unfolding op_root
log_text g b = do
  op ← op_root b.type
  name ← name_of b.object g
  elim b.state [
    | TaskState.awaiting ↦ err assert_failed
    | TaskState.running ↦ err assert_failed
    | TaskState.success ↦ ok (log_line "" op "ed " name green "  OK  ")
    | TaskState.failure ↦ ok (log_line "Failed " op "ing" name red " Fail ")
    | TaskState.timeout ↦ ok (log_line "Timed out " op "ing" name red " Time ")
    | TaskState.cancelled ↦ ok (log_line "Cancelled " op "ing" name green "Cancel")
  ]
