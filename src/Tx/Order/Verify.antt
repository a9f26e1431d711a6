-- ===== src/Tx/Order/Verify.antt =====
-- `verify_acyclic`: which transactions pass, and what is done where a cycle is found.
use neo_init_ware.Common.{
  ℕ, ◌≡◌, ◌++◌, ◌>>=◌, Bool, true, false, some, List, [], ◌∷◌, Result, ok, if◌then◌else◌,
}
use neo_init_ware.Objects.Resolve.{IsLive}
use neo_init_ware.Tx.Model.{Job, Gen, Transaction, jobs_at}
use neo_init_ware.Tx.Order.{object_creates_cycle, search_fuel, try_remove_cycle, verify_objects}
use neo_init_ware.Tx.Order.Walks.{Reach, OnCycle}

-- Every listed job is a job of the object that it is listed for, and the object is live.
pub record IsHomed (s : Gen) : Type 0 where
  pub homed :
      (p j : ℕ) (js : List ℕ)
      → jobs_at p s.tx ≡ j ∷ js
      → (b : Job) × (s.tx.job j ≡ some b) × (b.object ≡ p) × IsLive s.graph p

-- The object has no job, or no cycle of After edges can be reached from it.
abbrev pub IsOrdered : Gen → ℕ → Type 0
IsOrdered s p =
    (j q : ℕ) (js : List ℕ)
    → jobs_at p s.tx ≡ j ∷ js
    → Reach s.graph s.tx p q
    → ¬ OnCycle s.graph s.tx q

-- No cycle of After edges can be reached from an object that has a job.
abbrev pub IsOrderable : Gen → Type 0
IsOrderable s = (p : ℕ) → IsOrdered s p

-- What follows the removal of a cycle: the other objects, or the end.
abbrev pub after_removal : Gen → List ℕ → Bool × Transaction → Result (Bool × Gen)
after_removal s later (resolved, tx) =
    let rest = verify_objects later (record s { tx = tx }) in
    if resolved then rest else ok (false, record s { tx = tx })

-- A cycle of After edges can be reached from the object, the search finds it, and the path that it
-- leaves is what `try_remove_cycle` is given.
pub record Cyclic (s : Gen) (p : ℕ) (later : List ℕ) (result : Result (Bool × Gen)) : Type 0 where
  pub reached : ℕ
  pub walk : Reach s.graph s.tx p reached
  pub cycle : OnCycle s.graph s.tx reached
  pub path : List ℕ
  pub found :
      object_creates_cycle (search_fuel s.graph) s.tx p [] s.graph
      ≡ ok (record { cyclic = true; path = path; graph = s.graph })
  pub removes : result ≡ (try_remove_cycle path s.tx >>= after_removal s later)

-- The first of the objects that reaches a cycle; those before it are ordered.
pub record FirstCyclic (s : Gen) (ps : List ℕ) (result : Result (Bool × Gen)) : Type 0 where
  pub before : List ℕ
  pub object : ℕ
  pub later : List ℕ
  pub objects_are : ps ≡ before ++ (object ∷ later)
  pub cyclic : Cyclic s object later result
