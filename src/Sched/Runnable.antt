-- ===== src/Sched/Runnable.antt =====
-- When a job may run.
use neo_init_ware.Common.{
  ℕ, ◌≡◌, ◌≢◌, ◌↔◌, inl, inr, refl, subst, true, some, ok, List, [], ◌∷◌, Bool-cases, Option-cases,
  arith,
}
use neo_init_ware.Objects.{Graph, Edge, has_flag}
use neo_init_ware.Objects.EdgeType
use neo_init_ware.Objects.Edges.{Owns}
use neo_init_ware.Tx.JobType.{stop, restart}
use neo_init_ware.Tx.{TaskState, Job, Transaction, job_for_name, load_job}
use neo_init_ware.Tx.Submit.{edges_of}
use neo_init_ware.Sched.{blocks, none_blocks, waits_for, job_runnable, is_success, is_awaiting}

pub load_job-at : (j : ℕ) (tx : Transaction) (b : Job) → load_job j tx ≡ ok b → tx.job j ≡ some b
load_job-at j tx b read = ground arith

pub is_awaiting-state : (x : TaskState) → is_awaiting x ≡ true → x ≡ TaskState.awaiting
is_awaiting-state x h = ground arith

pub is_success-state : (x : TaskState) → is_success x ≡ true → x ≡ TaskState.success
is_success-state x h = ground arith

-- The edge asks its object to wait, for a job that neither stops nor restarts its own object and
-- that has not succeeded.
pub record HeldBack (g : Graph) (tx : Transaction) (e : Edge) : Type 0 where
  pub other : ℕ
  pub job : Job
  pub is_after : has_flag EdgeType.after e ≡ true
  pub found : job_for_name g e.to tx ≡ some other
  pub job_at : tx.job other ≡ some job
  pub not_stop : job.type ≢ stop
  pub not_restart : job.type ≢ restart
  pub not_succeeded : job.state ≢ TaskState.success

waits_for_iff : (b : Job) → (waits_for b ≡ true) ↔ ((b.type ≢ stop) × (b.type ≢ restart))
unfolding waits_for
waits_for_iff b = ground arith

module _ (g : Graph) (tx : Transaction) where
  HeldBack-blocks : (e : Edge) → HeldBack g tx e → blocks g tx e ≡ true
  unfolding blocks
  HeldBack-blocks e h = ground (
    arith,
    h.is_after,
    h.found,
    h.job_at,
    h.not_stop,
    h.not_restart,
    h.not_succeeded,
    waits_for_iff h.job,
  )

  pub blocks-HeldBack : (e : Edge) → blocks g tx e ≡ true → HeldBack g tx e
  unfolding blocks
  blocks-HeldBack e h = elim (Option-cases (job_for_name g e.to tx)) [
    | inl absent ↦ absurd (ground arith)
    | inr (k, found) ↦ elim (Option-cases (tx.job k)) [
      | inl dangling ↦ absurd (ground arith)
      | inr (b, at) ↦ record {
        other = k;
        job = b;
        is_after = ground arith;
        found = found;
        job_at = at;
        not_stop = λ x. ground (arith, waits_for_iff b);
        not_restart = λ x. ground (arith, waits_for_iff b);
        not_succeeded = λ x. ground arith;
      }
    ]
  ]

  none_blocks_sound :
      (es : List Edge) → none_blocks g tx es ≡ true → (e : Edge) → Owns e es → ¬ HeldBack g tx e
  unfolding none_blocks
  none_blocks_sound [] h e owns held = absurd owns
  none_blocks_sound (x ∷ es) h e (inl this) held =
      let b = HeldBack-blocks x (subst (HeldBack g tx) this held) in ground arith
  none_blocks_sound (x ∷ es) h e (inr later) held = none_blocks_sound es (ground arith) e later held

  none_blocks_complete :
      (es : List Edge) → ((e : Edge) → Owns e es → ¬ HeldBack g tx e) → none_blocks g tx es ≡ true
  unfolding none_blocks
  none_blocks_complete [] free = refl
  none_blocks_complete (x ∷ es) free = elim (Bool-cases (blocks g tx x)) [
    | inl held ↦ absurd (free x (inl refl) (blocks-HeldBack x held))
    | inr clear ↦ let rest = none_blocks_complete es (λ e later. free e (inr later)) in ground arith
  ]

pub job_runnable_iff :
    (g : Graph) (tx : Transaction) (b : Job)
    → (job_runnable g tx b ≡ true) ↔ (
        (b.state ≡ TaskState.awaiting)
        × ((e : Edge) → Owns e (edges_of b.object g) → ¬ HeldBack g tx e))
unfolding job_runnable
job_runnable_iff g tx b = (
  λ h. (ground arith, none_blocks_sound g tx (edges_of b.object g) (ground arith)),
  λ (waits, free). let clear = none_blocks_complete g tx (edges_of b.object g) free in ground arith,
)
