-- ===== src/Tx/Merge.antt =====
-- What the merge matrix of txgen.cc promises.
use neo_init_ware.Common.{◌≡◌, ◌≢◌, ◌↔◌, Bool, true, false, none, arith}
use neo_init_ware.Tx.JobType.{JobType, start, stop, merged_job_type}

abbrev pub is_stop : JobType → Bool
is_stop stop = true
is_stop _ = false

-- Two jobs are unmergeable exactly if one of them, and not the other, is a stop job.
pub merged_none_iff : (a b : JobType) → (merged_job_type a b ≡ none) ↔ (is_stop a ≢ is_stop b)
unfolding merged_job_type
merged_none_iff start b = ground arith
merged_none_iff a b = ground arith
