-- ===== src/Lib.antt =====
-- The scheduler of Neo-InitWare (cmd/schedulerd): objects and the edges between them, transactions
-- of jobs on objects, the running of their jobs, and the timers of the event loop.
--
-- The parts, and the files that model them:
--   * Objects (scheduler/object.h and the first half of scheduler/scheduler.cc). The scheduler maps
--     names to objects; edges leave one object and reach another. Objects.Registry has the state
--     `Graph` and an operation for each of object_add, object_get, edge_add,
--     object_remap_unowned_edges, object_load and object_set_state; Objects.LoadQueue has
--     dispatch_load_queue, with the loader as a parameter; Objects.EdgeType has the flags.
--     A pointer to an object is its index in `heap`, which only grows: every object stays in the
--     set `objects`, so none is ever freed.
--   * Transactions (scheduler/txgen.cc and `class Transaction` of scheduler/scheduler.h). Tx.JobType
--     has the merge matrix, Tx.Model the jobs and requirements, Tx.Submit job_submit and its edge
--     visitors, Tx.Order the search for ordering cycles and their removal, Tx.Delete the deletion of
--     jobs with the destructors, Tx.Generate the merging of jobs and the constructor. A pointer to a
--     job or a requirement is an index into a heap where freed memory is `none`, so that a read
--     through a dangling pointer is the error `undefined`. Generation also works on the scheduler's
--     objects, since a name without an object gets a placeholder.
--   * Running (the second half of scheduler/scheduler.cc). Sched has job_runnable, job_run,
--     job_complete, job_timeout_cb, tx_enqueue_leaves and tx_enqueue on the state `Scheduler`. The
--     restarter for "target" (restarters/restarter.cc) reports success at once, so `job_run` calls
--     `job_complete`.
--   * The event loop (app/app.cc). App has add_timer, del_timer, add_fd and del_fd; whether the
--     kernel's queue accepts a call is a parameter. App.Loop has handle_timer, handle_fd and loop over
--     the events that the queue gives; each timer has its own callback, and what callbacks do is a
--     parameter.
--   * Timers of scripts (`JSTimer` of js/js.cc). JsTimers has setTimeout, setInterval, clearTimeout and
--     the callback.
--   * Files of scripts (js/fs.cc). Fs has dirname_a, readlink_absolute, get_symlinks, getLinkedNames,
--     openSync, readSync and readdirSync; the kernel and the C library are a parameter.
--   * Output (the to_graph, print and string functions, and the text of log_job_complete), as
--     functions into the list of pieces that are written.
--   * The start of the daemon (schedulerd.cc, and run_pending_jobs and loadObject of js/js.cc). Entry has
--     `main` up to its exit(0); the engine is a parameter.
--   * Common has lists, Boolean tests and results over the native numbers; Tests has runs of the
--     model and the theorems at concrete inputs.
--
-- An exception, a failed assertion and undefined behaviour are errors of `Result`. A `std::map` from
-- objects is a list in the order of the objects' addresses, which are their indices; an
-- `std::unordered_map` is an association list. Strings are compared as they are.
--
-- An After edge to an object whose list holds a freed job, which the program would read, holds nothing
-- back in the model (`blocks` of Sched). A load of Entry works on the registry of objects only: what it
-- does to the event loop's timers is left out. The addresses of objects are taken to grow as they are
-- made, so the order of a map is theirs.
--
-- Fuel: job_submit calls itself through the visitors, object_creates_cycle through the edges, and
-- job_complete through the jobs that it starts. The fuel is `enough_fuel` of Tx.Submit.Whole (ten for
-- each object and each edge in sight), `search_fuel` of Tx.Order (one for each object) and, for
-- job_complete, `left` of Sched.Ready (how often the jobs of the front transaction can still
-- complete).
--
-- Tx.Links is about the requirements between jobs, and how each operation on a transaction keeps them.
-- `Sched.Seen` is the abstract view of a running transaction, the types and states of its jobs and
-- the steps that may change them; Sched.Placed to Sched.Succeeds follow which jobs may still run.
-- Tx.Single counts the jobs of an object, and Objects.TwoEnded is about the two ends of an edge.
--
-- Not modelled: the JavaScript engine, its C++ wrapper js/qjspp.h (a copy of another project), the
-- registration of functions with it (js/scheduler.cc, js/restarter.cc, the constructor `JS`), the
-- promises of js/js.cc, the loader in lib/iwjs (another language) and js/oldjs (not built).
pub mod Common
pub mod Objects
pub mod Tx
pub mod App
pub mod Sched
pub mod Output
pub mod JsTimers
pub mod Fs
pub mod Entry
mod Tests
