-- ===== src/Tx/Submit/Whole.antt =====
-- What `job_submit` makes of a transaction that has no job yet.
use neo_init_ware.Common.{ℕ, suc, ◌≡◌, Bool, true, ok, contains, arith, inl, inr, some}
use neo_init_ware.Objects.{Graph}
use neo_init_ware.Objects.Resolve.{IsLive}
use neo_init_ware.Objects.Sound.{IsSound, IsSound-AliasesLive}
use neo_init_ware.Tx.JobType.{JobType}
use neo_init_ware.Tx.Model.{Job, Gen, jobs_at, empty_tx}
use neo_init_ware.Tx.Submit.{job_submit}
use neo_init_ware.Tx.Submit.Progress.{IsFit, IsComplete}
use neo_init_ware.Tx.Submit.Steps.{Present}
use neo_init_ware.Tx.Submit.Measure.{measure-le-ten_each, ten_each}
use neo_init_ware.Tx.Submit.Complete.{job_submit-Submits}
use neo_init_ware.Tx.Submit.Ends.{job_submit-EndsBelow}

abbrev pub fresh : Graph → Gen
fresh g = record { graph = g; tx = empty_tx }

pub fresh-IsFit : (g : Graph) → IsSound g → IsFit (fresh g)
fresh-IsFit g s = record {
  names = IsSound-AliasesLive s;
  jobs_below = λ j b at. cc;
  reqs_below = λ r q at. cc;
  homes = λ j b at. absurd (cc);
}

-- Fuel for any submission into a new transaction.
unfoldable pub enough_fuel : Graph → ℕ
unfolding ten_each
enough_fuel g = suc (ten_each g)

-- What the new transaction has.
pub record IsPlan (p : ℕ) (op : JobType) (j : ℕ) (t : Gen) : Type 0 where
  pub job : Job
  pub is_listed : contains j (jobs_at p t.tx) ≡ true
  pub job_at : t.tx.job j ≡ some job
  pub has_type : job.type ≡ op
  pub complete : (k : ℕ) → Present t k → IsComplete t k
  pub fit : IsFit t

-- Submission of a job on a live object of a sound map into a new transaction returns within the
-- stated fuel, whatever cycles the edges have. The job is listed for its object with its type, and
-- every job of the transaction is complete: for each visitor of its type and each edge of its
-- object that the visitor follows, the target object has a job of the visitor's type, and a
-- requirement with the visitor's strength links the two jobs.
pub job_submit_plans :
    (p : ℕ) (op : JobType) (goal : Bool) (g : Graph)
    → IsSound g
    → IsLive g p
    → (j : ℕ) × (t : Gen) × (job_submit (enough_fuel g) p op goal (fresh g) ≡ ok (j, t))
      × IsPlan p op j t
unfolding enough_fuel
job_submit_plans p op goal g s live =
    let fit = fresh-IsFit g s in
    let r =
      job_submit-EndsBelow (suc (ten_each g)) p op goal (fresh g) fit s.below live
        (omega (arith, measure-le-ten_each (fresh g))) in
    let did =
      job_submit-Submits (suc (ten_each g)) p op goal (fresh g) r.job r.out fit live r.runs in
    (
      r.job,
      r.out,
      r.runs,
      record {
        job = did.job;
        is_listed = did.is_listed;
        job_at = did.job_at;
        has_type = did.has_type;
        complete = λ k at. elim (did.progress.done k at) [
          | inl (b, old) ↦ absurd (cc)
          | inr complete ↦ complete
        ];
        fit = did.progress.fit;
      },
    )
