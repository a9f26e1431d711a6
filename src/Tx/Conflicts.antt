-- ===== src/Tx/Conflicts.antt =====
-- Which of two unmergeable jobs `merge_jobs` of txgen.cc deletes.
use neo_init_ware.Common.{Bool, if◌then◌else◌}
use neo_init_ware.Tx.JobType.{JobType}
use neo_init_ware.Tx.Model.{Job}

-- The job that is deleted, and the one that stays.
abbrev pub loser : Bool → Job → Job → Job
loser second b1 b2 = if second then b2 else b1

abbrev pub winner : Bool → Job → Job → Job
winner second b1 b2 = if second then b1 else b2
