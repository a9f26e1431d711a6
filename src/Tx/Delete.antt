-- ===== src/Tx/Delete.antt =====
-- Deletion of jobs and requirements: `~Job`, `~Requirement`, `del_req`, `get_del_list` and
-- `object_del_jobs` of cmd/schedulerd/scheduler/txgen.cc.
use neo_init_ware.Common.{
  ℕ, zero, suc, ◌++◌, ◌>>=◌, none, List, [], ◌∷◌, Result, ok, err, thrown, out_of_fuel, contains,
  erase, update, if◌then◌else◌,
}
use neo_init_ware.Tx.Model.{
  Job, Transaction, jobs_at, ensure_entry, set_jobs, modify_job, load_job, load_req,
}

abbrev pub erase_req_on : ℕ → Job → Job
erase_req_on r b = record b { reqs_on = erase r b.reqs_on }

abbrev pub erase_req : ℕ → Job → Job
erase_req r b = record b { reqs = erase r b.reqs }

-- `~Requirement`, which writes to the job that the requirement is on, and its memory is given back.
unfoldable pub delete_req : ℕ → Transaction → Result Transaction
delete_req r tx = do
  q ← load_req r tx
  _ ← load_job q.to tx
  let unlinked = modify_job q.to (erase_req_on r) tx
  ok (record unlinked { req = update tx.req r none })

-- `Job::del_req`, where the requirement is found. The destructor that `reqs.erase` runs erases the
-- requirement from `reqs_on` once more.
unfoldable pub del_found_req : ℕ → ℕ → Transaction → Result Transaction
unfolding delete_req
del_found_req j r tx = do
  q ← load_req r tx
  _ ← load_job q.to tx
  delete_req r (modify_job j (erase_req r) (modify_job q.to (erase_req_on r) tx))

unfoldable pub del_req : ℕ → ℕ → Transaction → Result Transaction
unfolding del_found_req
del_req j r tx = do
  b ← load_job j tx
  if contains r b.reqs then del_found_req j r tx else err (thrown "Requirement not found")

-- The loop of `~Job`, over the requirements on the job.
unfoldable pub del_reqs_on : ℕ → List ℕ → Transaction → Result Transaction
unfolding del_req
del_reqs_on j [] tx = ok tx
del_reqs_on j (r ∷ rs) tx = do
  let erased = modify_job j (erase_req_on r) tx
  q ← load_req r erased
  tx' ← del_req q.from r erased
  del_reqs_on j rs tx'

-- The destructor of the set `reqs`.
unfoldable pub delete_reqs : List ℕ → Transaction → Result Transaction
unfolding delete_req
delete_reqs [] tx = ok tx
delete_reqs (r ∷ rs) tx = do tx' ← delete_req r tx; delete_reqs rs tx'

-- `delete job`: `~Job`, then its members, then its memory.
unfoldable pub delete_job : ℕ → Transaction → Result Transaction
unfolding del_reqs_on delete_reqs
delete_job j tx = do
  b ← load_job j tx
  tx1 ← del_reqs_on j b.reqs_on tx
  b1 ← load_job j tx1
  tx2 ← delete_reqs b1.reqs tx1
  ok (record tx2 { job = update tx2.job j none })

unfoldable pub delete_jobs : List ℕ → Transaction → Result Transaction
unfolding delete_job
delete_jobs [] tx = ok tx
delete_jobs (j ∷ js) tx = do tx' ← delete_job j tx; delete_jobs js tx'

abbrev pub GetDelList : Type 0
GetDelList = ℕ → List ℕ → Transaction → Result (List ℕ × Transaction)

-- The last loop of `get_del_list`, over the jobs that require the job.
unfoldable pub visit_requirers :
    GetDelList → List ℕ → List ℕ → Transaction → Result (List ℕ × Transaction)
visit_requirers get [] dellist tx = ok (dellist, tx)
visit_requirers get (r ∷ rs) dellist tx = do
  q ← load_req r tx
  (dellist', tx') ← (if q.required then get q.from dellist tx else ok (dellist, tx))
  visit_requirers get rs dellist' tx'

-- The job's own entry is taken out of the map and into the list, if it is in the map.
unfoldable pub take_listed : GetDelList → Job → GetDelList
unfolding visit_requirers
take_listed get b j dellist tx =
    let ensured = ensure_entry b.object tx in
    let js = jobs_at b.object tx in
    if contains j js
    then ok (dellist ++ (j ∷ []), set_jobs b.object (erase j js) tx)
    else visit_requirers get b.reqs_on dellist ensured

-- `Transaction::get_del_list`: the list that it fills is passed on.
unfoldable pub get_del_list : ℕ → GetDelList
unfolding take_listed
get_del_list zero j dellist tx = err out_of_fuel
get_del_list (suc fuel) j dellist tx = do
  b ← load_job j tx
  if contains j dellist then ok (dellist, tx) else take_listed (get_del_list fuel) b j dellist tx

unfoldable pub get_del_lists : List ℕ → List ℕ → Transaction → Result (List ℕ × Transaction)
unfolding get_del_list
get_del_lists [] dellist tx = ok (dellist, tx)
get_del_lists (j ∷ js) dellist tx = do
  (dellist', tx') ← get_del_list (suc tx.next_job) j dellist tx
  get_del_lists js dellist' tx'

-- `Transaction::object_del_jobs`. The list of jobs to delete owns them, and ends with the call.
unfoldable pub object_del_jobs : ℕ → Transaction → Result Transaction
unfolding get_del_lists delete_jobs
object_del_jobs p tx = do
  (dellist, tx') ← get_del_lists (jobs_at p tx) [] (ensure_entry p tx)
  delete_jobs dellist tx'
