-- ===== src/Tests/Entry.antt =====
-- The daemon with a script that loads an object and asks for the default target.
use neo_init_ware.Common.{ℕ, zero, suc, ◌≡◌, ◌⊎◌, ◌>>=◌, refl, String, [], ◌∷◌, Result, ok, arith}
use neo_init_ware.Objects.{Graph, object_load}
use neo_init_ware.Sched.{Scheduler}
use neo_init_ware.Entry.{
  Executed, raised, idle as no_job, ran, Evaluated, completed, exception, run_pending_jobs,
}
use neo_init_ware.Entry.Starts.{Executes, finds_none, runs_one, raises, run_pending_jobs_settles}
use neo_init_ware.Tests.Samples.{single, pair, require_after}
use neo_init_ware.Tests.Sched.{idle}

-- Three jobs, of which the last but one raises an exception.
abbrev execute : ℕ → Executed × ℕ
execute zero = (no_job, zero)
execute (suc zero) = (ran, zero)
execute (suc (suc zero)) = (raised, suc zero)
execute (suc (suc (suc n))) = (ran, suc (suc n))

execute-Executes : (n : ℕ) → Executes execute (λ q. q) (λ n. n) n
execute-Executes zero = finds_none zero refl
execute-Executes (suc zero) = runs_one zero refl (omega arith)
execute-Executes (suc (suc zero)) = raises (suc zero) refl (omega arith)
execute-Executes (suc (suc (suc n))) = runs_one (suc (suc n)) refl (omega arith)

run_pending_jobs_settles_example :
    (r : ℕ) × (run_pending_jobs execute (λ q. q) 4 3 ≡ ok r)
    × ((before : ℕ) × (execute before ≡ (no_job, r)))
run_pending_jobs_settles_example =
    run_pending_jobs_settles execute (λ q. q) (λ n. n) 3 execute-Executes

-- The script has loaded b, and asks for the default target, which requires b; it ends with an
-- exception.
abbrev app : Scheduler
app = record idle { graph = record single { m_loadqueue = "default.target" ∷ [] } }

abbrev eval_file : String → Scheduler → Result (Evaluated Scheduler)
eval_file script s = ok (exception app)

abbrev call : String → Graph → Result (Evaluated Graph)
unfolding object_load
call name g = do
  loaded ← object_load (name ∷ []) (("b", require_after) ∷ []) [] g
  ok (completed loaded)

abbrev AppOrPair : Graph → Type 0
AppOrPair f = (f ≡ app.graph) ⊎ (f ≡ pair)
