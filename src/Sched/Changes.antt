-- ===== src/Sched/Changes.antt =====
-- What a change of one job of the front transaction does to the jobs that may run.
use neo_init_ware.Common.{
  ℕ, ◌≡◌, ◌==◌, ◌∙◌, ◌⊎◌, ◌||◌, sym, ap, refl, subst, true, false, none, some, List, [], ◌∷◌, inl,
  inr, Bool-cases, Option-cases, arith,
}
use neo_init_ware.Objects.{Graph, Edge}
use neo_init_ware.Objects.Edges.{Owns}
use neo_init_ware.Tx.{Job, Transaction, job_for_name, job_for_name_in, modify_job}
use neo_init_ware.Tx.Submit.{edges_of}
use neo_init_ware.Sched.{
  Scheduler, change_front, is_awaiting, is_success, job_runnable, blocks, none_blocks, waits_for,
}
use neo_init_ware.Sched.Runnable.{blocks-HeldBack}
use neo_init_ware.Sched.Placed.{IsHead, IsPlaced, Awaits, may_run}

pub none_blocks-false :
    (g : Graph) (tx : Transaction) (es : List Edge)
    → none_blocks g tx es ≡ false
    → (e : Edge) × Owns e es × (blocks g tx e ≡ true)
unfolding none_blocks
none_blocks-false g tx [] h = cc
none_blocks-false g tx (e ∷ es) h = elim (Bool-cases (blocks g tx e)) [
  | inl held ↦ (e, inl refl, held)
  | inr clear ↦
      let (x, owns, held) = none_blocks-false g tx es (ground arith) in (x, inr owns, held)
]

none_blocks-at :
    (g : Graph) (tx : Transaction) (es : List Edge) (e : Edge)
    → none_blocks g tx es ≡ true
    → Owns e es
    → blocks g tx e ≡ false
unfolding none_blocks
none_blocks-at g tx [] e h owns = absurd owns
none_blocks-at g tx (x ∷ es) e h (inl same) = rw same (ground arith)
none_blocks-at g tx (x ∷ es) e h (inr later) = none_blocks-at g tx es e (ground arith) later

-- A job that holds others back is changed: whom it releases.
module _ (g : Graph) (tx : Transaction) (j : ℕ) (f : Job → Job) where
  abbrev changed : Transaction
  changed = modify_job j f tx

  blocks-changed :
      (e : Edge) (k : ℕ)
      → job_for_name g e.to tx ≡ some k
      → (j == k) ≡ false
      → blocks g changed e ≡ blocks g tx e
  unfolding blocks
  blocks-changed e k found other =
      let kept : changed.job k ≡ tx.job k = ground arith in
      let found' : job_for_name_in g e.to tx.jobs ≡ some k = found in rw (found', kept)

  released :
      (p : ℕ) (b : Job)
      → b.object ≡ p
      → none_blocks g changed (edges_of b.object g) ≡ true
      → none_blocks g tx (edges_of b.object g) ≡ false
      → Awaits g tx.jobs p j
  unfolding job_for_name
  released p b home clear held =
      let (e, owns, stops) = none_blocks-false g tx (edges_of b.object g) held in
      let h = blocks-HeldBack g tx e stops in
      elim (Bool-cases (j == h.other)) [
        | inl same ↦
            let j_eq : h.other ≡ j = ground arith in
            record {
              edge = e;
              owns = rw (← home) owns;
              is_after = h.is_after;
              found = h.found ∙ ap some j_eq;
            }
        | inr other ↦
            let still : blocks g changed e ≡ true =
              blocks-changed e h.other h.found other ∙ stops in
            let free = none_blocks-at g changed (edges_of b.object g) e clear owns in
            absurd (cc (still, free))
      ]

  pub may_run-changed :
      (p k : ℕ) (b : Job)
      → tx.job k ≡ some b
      → b.object ≡ p
      → may_run g changed k ≡ true
      → (may_run g tx k ≡ true) ⊎ ((k ≡ j) ⊎ Awaits g tx.jobs p j)
  unfolding may_run job_runnable
  may_run-changed p k b at home runs = elim (Bool-cases (j == k)) [
    | inl same ↦ inr (inl (ground arith))
    | inr other ↦
        let kept : changed.job k ≡ some b = ground arith in
        let runs' : job_runnable g changed b ≡ true = rw (kept, may_run) at runs in
        let clear : none_blocks g changed (edges_of b.object g) ≡ true = ground arith in
        let waits : is_awaiting b.state ≡ true = ground arith in
        elim (Bool-cases (none_blocks g tx (edges_of b.object g))) [
          | inl free ↦ inl (rw (at, may_run) (rw (waits, job_runnable) free))
          | inr held ↦ inr (inr (released p b home clear held))
        ]
  ]

-- A change that leaves the types, states and objects of jobs alone changes nothing that may run.
module _ (g : Graph) (tx : Transaction) (j : ℕ) (f : Job → Job)
    (same_type : (b : Job) → (f b).type ≡ b.type) (same_state : (b : Job) → (f b).state ≡ b.state)
    (same_object : (b : Job) → (f b).object ≡ b.object) where
  now :
      (k : ℕ) (b : Job)
      → tx.job k ≡ some b
      → (c : Job) × ((modify_job j f tx).job k ≡ some c)
        × (c.type ≡ b.type)
        × (c.state ≡ b.state)
        × (c.object ≡ b.object)
  now k b at = elim (Bool-cases (j == k)) [
    | inl same ↦ (f b, ground arith, same_type b, same_state b, same_object b)
    | inr other ↦ (b, ground arith, refl, refl, refl)
  ]

  still_none : (k : ℕ) → tx.job k ≡ none → (modify_job j f tx).job k ≡ none
  still_none k at = ground arith

  same_blocks : (e : Edge) → blocks g (modify_job j f tx) e ≡ blocks g tx e
  unfolding blocks waits_for
  same_blocks e = elim (Option-cases (job_for_name_in g e.to tx.jobs)) [
    | inl absent ↦ rw absent refl
    | inr (k, found) ↦ elim (Option-cases (tx.job k)) [
      | inl dangling ↦ let after = still_none k dangling in rw (found, after, dangling) refl
      | inr (b, at) ↦
          let (c, c_at, c_type, c_state, c_object) = now k b at in
          rw (found, c_at, at) (rw (c_type, c_state) refl)
    ]
  ]

  same_none_blocks : (es : List Edge) → none_blocks g (modify_job j f tx) es ≡ none_blocks g tx es
  unfolding none_blocks
  same_none_blocks [] = refl
  same_none_blocks (e ∷ es) = ground (arith, same_blocks e, same_none_blocks es)

  same_runnable :
      (b c : Job)
      → c.object ≡ b.object
      → c.state ≡ b.state
      → job_runnable g (modify_job j f tx) c ≡ job_runnable g tx b
  unfolding job_runnable
  same_runnable b c c_object c_state =
      rw (c_object, c_state) (rw (same_none_blocks (edges_of b.object g)) refl)

  pub may_run-same : (k : ℕ) → may_run g (modify_job j f tx) k ≡ may_run g tx k
  unfolding may_run
  may_run-same k = elim (Option-cases (tx.job k)) [
    | inl dangling ↦ let after = still_none k dangling in rw (after, dangling, may_run) refl
    | inr (b, at) ↦
        let (c, c_at, c_type, c_state, c_object) = now k b at in
        rw (c_at, at, may_run) (same_runnable b c c_object c_state)
  ]

module _ (g : Graph) (m : List (ℕ × List ℕ)) (s u : Scheduler) (j : ℕ) (f : Job → Job)
    (placed : IsPlaced g m s) (b : Job) (at : placed.first.job j ≡ some b)
    (same_object : (f b).object ≡ b.object)
    (fit : (is_awaiting (f b).state || is_success (f b).state) ≡ true)
    (same_graph : u.graph ≡ s.graph)
    (changed : u.transactions ≡ (change_front (modify_job j f) s).transactions) where
  pub changed-IsPlaced : IsPlaced g m u
  changed-IsPlaced = record {
    first = modify_job j f placed.first;
    others = placed.others;
    queue = changed ∙ rw placed.queue refl;
    graph_is = same_graph ∙ placed.graph_is;
    jobs_are = placed.jobs_are;
    homed = homed;
  }
    where
      homed :
          (p k : ℕ)
          → IsHead p k m
          → (c : Job) × ((modify_job j f placed.first).job k ≡ some c)
            × (c.object ≡ p)
            × ((is_awaiting c.state || is_success c.state) ≡ true)
      homed p k head =
          let (c, c_at, home, c_fit) = placed.homed p k head in
          elim (Bool-cases (j == k)) [
            | inl same ↦
                let e : j ≡ k = ground arith in
                let same_job : c ≡ b = cc (subst (λ x. placed.first.job x ≡ some b) e at, c_at) in
                (f b, ground arith, same_object ∙ sym (ap (λ x. x.object) same_job) ∙ home, fit)
            | inr other ↦ (c, ground arith, home, c_fit)
          ]
