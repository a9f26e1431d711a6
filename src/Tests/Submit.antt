-- ===== src/Tests/Submit.antt =====
-- Job submission on small graphs.
use neo_init_ware.Common.{ℕ, ◌≡◌, refl, true, ok}
use neo_init_ware.Tx.JobType.{start}
use neo_init_ware.Tx.{Gen}
use neo_init_ware.Tx.Submit.{job_submit}
use neo_init_ware.Tx.Submit.Whole.{job_submit_plans, IsPlan, enough_fuel, fresh}
use neo_init_ware.Tests.Samples.{pair, pair-IsSound}

job_submit_plans_example :
    (j : ℕ) × (t : Gen) × (job_submit (enough_fuel pair) 1 start true (fresh pair) ≡ ok (j, t))
    × IsPlan 1 start j t
job_submit_plans_example = job_submit_plans 1 start true pair pair-IsSound (_, refl)
