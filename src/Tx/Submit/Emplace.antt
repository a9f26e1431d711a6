-- ===== src/Tx/Submit/Emplace.antt =====
-- The new job of `job_submit`: it is listed, and it is the only one that is new.
use neo_init_ware.Common.{
  ℕ, ◌≡◌, ◌==◌, ◌++◌, ◌⊎◌, inl, inr, true, some, [], ◌∷◌, contains, contains-append, find-put,
  if◌then◌else◌, arith,
}
use neo_init_ware.Tx.JobType.{JobType}
use neo_init_ware.Tx.Model.{Job, Gen, jobs_at, new_job}
use neo_init_ware.Tx.Submit.{emplace_job}
use neo_init_ware.Objects.Resolve.{GraphGrows-refl, IsLive}
use neo_init_ware.Tx.Submit.Progress.{JobGrows-refl, IsFit, GenGrows}
use neo_init_ware.Tx.Submit.Steps.{Present}

module _ (p : ℕ) (op : JobType) (s : Gen) (fit : IsFit s) where
  abbrev emplaced : Gen
  emplaced = record s { tx = emplace_job p op s.tx }

  emplaced-jobs_at :
      (q : ℕ)
      → jobs_at q emplaced.tx
        ≡ (if p == q then jobs_at p s.tx ++ (s.tx.next_job ∷ []) else jobs_at q s.tx)
  unfolding emplace_job
  emplaced-jobs_at q =
      ground (arith, find-put p q (jobs_at p s.tx ++ (s.tx.next_job ∷ [])) s.tx.jobs)

  emplaced-listed :
      (q i : ℕ) → contains i (jobs_at q s.tx) ≡ true → contains i (jobs_at q emplaced.tx) ≡ true
  emplaced-listed q i h =
      rw (emplaced-jobs_at q)
        (ground (arith, contains-append i (jobs_at p s.tx) (s.tx.next_job ∷ [])))

  pub emplaced-is_listed : contains s.tx.next_job (jobs_at p emplaced.tx) ≡ true
  emplaced-is_listed =
      rw (emplaced-jobs_at p)
        (ground (arith, contains-append s.tx.next_job (jobs_at p s.tx) (s.tx.next_job ∷ [])))

  pub emplaced-new : emplaced.tx.job s.tx.next_job ≡ some (new_job p op)
  unfolding emplace_job
  emplaced-new = ground arith

  emplaced-old : (k : ℕ) (b : Job) → s.tx.job k ≡ some b → emplaced.tx.job k ≡ some b
  unfolding emplace_job
  emplaced-old k b at = ground (arith, fit.jobs_below k b at)

  emplaced-cases :
      (k : ℕ) (b : Job)
      → emplaced.tx.job k ≡ some b
      → (s.tx.job k ≡ some b) ⊎ ((k ≡ s.tx.next_job) × (b ≡ new_job p op))
  unfolding emplace_job
  emplaced-cases k b at = ground arith

  pub emplaced-Present : (k : ℕ) → Present emplaced k → Present s k ⊎ (k ≡ s.tx.next_job)
  emplaced-Present k (b, at) = elim (emplaced-cases k b at) [
    | inl old ↦ inl (b, old)
    | inr new ↦ inr new.0
  ]

  pub emplaced-GenGrows : GenGrows s emplaced
  unfolding emplace_job
  emplaced-GenGrows = record {
    graph = GraphGrows-refl s.graph;
    tx = record {
      listed = emplaced-listed;
      jobs = λ k b at. (b, emplaced-old k b at, JobGrows-refl b);
      reqs = λ r q at. at;
    };
  }

  pub emplaced-IsFit : IsLive s.graph p → IsFit emplaced
  unfolding emplace_job new_job
  emplaced-IsFit live = record {
    names = fit.names;
    jobs_below = λ k b at. ground (arith, emplaced-cases k b at, fit.jobs_below k b);
    reqs_below = fit.reqs_below;
    homes = λ k b at. elim (emplaced-cases k b at) [
      | inl old ↦ fit.homes k b old
      | inr new ↦ rw new.1 live
    ];
  }
