-- ===== src/Tests/Merge.antt =====
-- Merging of job types.
use neo_init_ware.Common.{◌≡◌, ◌≢◌, ◌↔◌, none}
use neo_init_ware.Tx.JobType.{start, stop, merged_job_type}
use neo_init_ware.Tx.{Job, new_job}
use neo_init_ware.Tx.Merge.{merged_none_iff, is_stop}

merged_none_iff_example : (merged_job_type start stop ≡ none) ↔ (is_stop start ≢ is_stop stop)
merged_none_iff_example = merged_none_iff start stop

abbrev starter : Job
unfolding new_job
starter = new_job 0 start

abbrev stopper : Job
unfolding new_job
stopper = new_job 0 stop
