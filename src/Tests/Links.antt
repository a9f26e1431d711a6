-- ===== src/Tests/Links.antt =====
-- The links of a transaction whose jobs are merged: a starts b and verifies it.
use neo_init_ware.Common.{
  ℕ, ◌≡◌, ◌≤◌, ◌==◌, ◌||◌, refl, false, none, [], ◌∷◌, ok, err, ◌>>=◌, length, if◌then◌else◌,
}
use neo_init_ware.Objects.{Graph, no_objects, object_load}
use neo_init_ware.Objects.EdgeType
use neo_init_ware.Tx.JobType.{start, merged_job_type}
use neo_init_ware.Tx.{Gen, Transaction, empty_tx, jobs_at}
use neo_init_ware.Tx.Generate.{new_transaction}
use neo_init_ware.Tx.Delete.{delete_job}
use neo_init_ware.Tx.Links.{IsLinked, blank, is_on, is_from}
use neo_init_ware.Tx.Links.Destroy.{delete_job-IsLinked}
use neo_init_ware.Tx.Links.Whole.{new_transaction-IsLinked}
use neo_init_ware.Tx.Single.Merges.{new_transaction-single}
use neo_init_ware.Tests.Samples.{unit}

unfoldable doubled : Graph
unfolding object_load
doubled =
    elim (unit "b" [] no_objects
      >>= unit "default.target" (("b", EdgeType.add_start) ∷ ("b", EdgeType.add_verify) ∷ [])) [
        | ok g ↦ g
        | err _ ↦ no_objects
      ]

unfoldable made : Gen
unfolding new_transaction doubled
made = elim (new_transaction 1 start doubled) [
  | ok s ↦ s
  | err _ ↦ record { graph = no_objects; tx = empty_tx }
]

-- Of the jobs 1 and 2 on b the first was merged into the second.
merges : (made.tx.jobs ≡ (0, 2 ∷ []) ∷ (1, 0 ∷ []) ∷ []) × (made.tx.job 1 ≡ none)
unfolding made merged_job_type
merges = (refl, refl)

new_transaction-IsLinked_example : IsLinked made.tx
unfolding made merged_job_type
new_transaction-IsLinked_example = new_transaction-IsLinked 1 start doubled made refl

new_transaction-single_example : length (jobs_at 0 made.tx) ≤ 1
unfolding made merged_job_type
new_transaction-single_example = new_transaction-single 1 start doubled made 0 refl

delete_job-IsLinked_example :
    (after : Transaction) × (delete_job 2 made.tx ≡ ok after)
    × IsLinked after
    × (after.job 2 ≡ none)
    × ((k : ℕ) → (2 == k) ≡ false → blank (after.job k) ≡ blank (made.tx.job k))
    × ((i : ℕ)
        → after.req i ≡ (if is_on made.tx i 2 || is_from made.tx i 2 then none else made.tx.req i))
unfolding made merged_job_type
delete_job-IsLinked_example =
    delete_job-IsLinked 2 made.tx _ (new_transaction-IsLinked 1 start doubled made refl) refl
