-- ===== src/Tx/Submit/Steps.antt =====
-- One lemma for each change that job submission makes.
use neo_init_ware.Common.{
  ℕ, suc, ◌≡◌, refl, ◌==◌, ◌⊎◌, inl, inr, String, Bool, true, false, some, List, ◌∷◌, contains,
  lookup, Bool-cases, Option-cases, update, arith, sym, ◌∙◌,
}
use neo_init_ware.Objects.{Graph}
use neo_init_ware.Tx.Model.{Job, Requirement, Transaction, Gen, jobs_at, modify_job, add_req}
use neo_init_ware.Tx.Submit.{mark_goal, Visitor}
use neo_init_ware.Objects.Resolve.{GraphGrows-refl, Resolves}
use neo_init_ware.Tx.Submit.Progress.{
  JobGrows, JobGrows-refl, TxGrows, TxGrows-refl, IsFit, Meets, IsComplete, GenGrows, GenGrows-refl,
  GenGrows-trans, IsComplete-grows,
}

abbrev pub Present : Gen → ℕ → Type 0
Present s k = (b : Job) × (s.tx.job k ≡ some b)

-- `t` comes from `s` by submissions: each job that is new in it is complete.
pub record Progress (s t : Gen) : Type 0 where
  pub grows : GenGrows s t
  pub fit : IsFit t
  pub done : (k : ℕ) → Present t k → Present s k ⊎ IsComplete t k

pub Progress-refl : (s : Gen) → IsFit s → Progress s s
Progress-refl s fit = record { grows = GenGrows-refl s; fit = fit; done = λ k at. inl at }

pub Progress-trans : {s t u : Gen} → Progress s t → Progress t u → Progress s u
Progress-trans {s} {t} {u} a b = record {
  grows = GenGrows-trans a.grows b.grows;
  fit = b.fit;
  done = λ k at. finish k (b.done k at);
}
  where
    carry : (k : ℕ) → Present t k → Present s k ⊎ IsComplete t k → Present s k ⊎ IsComplete u k
    carry k at (inl old) = inl old
    carry k (c, at) (inr complete) = inr (IsComplete-grows k c a.fit b.grows at complete)

    finish : (k : ℕ) → Present t k ⊎ IsComplete u k → Present s k ⊎ IsComplete u k
    finish k (inl mid) = carry k mid (a.done k mid)
    finish k (inr complete) = inr complete

pub Present-grows : {s t : Gen} (k : ℕ) → GenGrows s t → Present s k → Present t k
Present-grows k g (b, at) = let (c, c_at, _) = g.tx.jobs k b at in (c, c_at)

-- Another graph, which resolves one name more.
pub Progress-graph :
    (s : Gen) (n : String) (p : ℕ) (g : Graph)
    → IsFit s
    → Resolves n s.graph p g
    → Progress s (record s { graph = g })
Progress-graph s n p g fit r = record {
  grows = record { graph = r.grows; tx = TxGrows-refl s.tx };
  fit = record {
    names = r.live;
    jobs_below = fit.jobs_below;
    reqs_below = fit.reqs_below;
    homes = λ j b at. let (o, points) = fit.homes j b at in (o, r.grows.objects b.object o points);
  };
  done = λ k at. inl at;
}

module _ (f : Job → Job) (keeps : (b : Job) → JobGrows b (f b)) (j : ℕ) where
  modify_job-jobs :
      (tx : Transaction) (k : ℕ) (b : Job)
      → tx.job k ≡ some b
      → (c : Job) × ((modify_job j f tx).job k ≡ some c) × JobGrows b c
  modify_job-jobs tx k b at = elim (Bool-cases (j == k)) [
    | inl same ↦ (f b, rw (same, at), keeps b)
    | inr other ↦ (b, rw other at, JobGrows-refl b)
  ]

  modify_job-TxGrows : (tx : Transaction) → TxGrows tx (modify_job j f tx)
  modify_job-TxGrows tx = record {
    listed = λ p i h. h;
    jobs = modify_job-jobs tx;
    reqs = λ r q e. e;
  }

  modify_job-old :
      (tx : Transaction) (k : ℕ) (c : Job)
      → (modify_job j f tx).job k ≡ some c
      → (b : Job) × (tx.job k ≡ some b) × (c.object ≡ b.object)
  modify_job-old tx k c at = elim (Option-cases (tx.job k)) [
    | inl absent ↦ absurd (ground arith)
    | inr (b, b_at) ↦ (b, b_at, same_object b b_at)
  ]
    where
      same_object : (b : Job) → tx.job k ≡ some b → c.object ≡ b.object
      same_object b b_at = ground (arith, (keeps b).same_object)

  pub Progress-modify : (s : Gen) → IsFit s → Progress s (record s { tx = modify_job j f s.tx })
  Progress-modify s fit = record {
    grows = record { graph = GraphGrows-refl s.graph; tx = modify_job-TxGrows s.tx };
    fit = record {
      names = fit.names;
      jobs_below =
          λ k c at. let (b, b_at, _) = modify_job-old s.tx k c at in fit.jobs_below k b b_at;
      reqs_below = fit.reqs_below;
      homes = λ k c at.
          let (b, b_at, home) = modify_job-old s.tx k c at in rw home (fit.homes k b b_at);
    };
    done = λ k (c, at). let (b, b_at, _) = modify_job-old s.tx k c at in inl (b, b_at);
  }

pub Progress-mark :
    (goal : Bool) (j : ℕ) (s : Gen) → IsFit s → Progress s (record s { tx = mark_goal goal j s.tx })
Progress-mark true j s fit =
    Progress-modify (λ b. record b { goal_required = true })
      (λ b. record { same_object = refl; same_type = refl; reqs = λ r h. h }) j s fit
Progress-mark false j s fit = Progress-refl s fit

-- A requirement in newly allocated memory, not yet linked to its jobs.
abbrev with_req : Requirement → Gen → Gen
with_req q s = record s {
  tx = record s.tx { req = update s.tx.req s.tx.next_req (some q); next_req = suc s.tx.next_req };
}

module _ (q : Requirement) (s : Gen) (fit : IsFit s) where
  with_req-old : (r : ℕ) (p : Requirement) → s.tx.req r ≡ some p → (with_req q s).tx.req r ≡ some p
  with_req-old r p at = ground (arith, fit.reqs_below r p at)

  Progress-with_req : Progress s (with_req q s)
  Progress-with_req = record {
    grows = record {
      graph = GraphGrows-refl s.graph;
      tx = record {
        listed = λ p i h. h;
        jobs = λ i b e. (b, e, JobGrows-refl b);
        reqs = with_req-old;
      };
    };
    fit = record {
      names = fit.names;
      jobs_below = fit.jobs_below;
      reqs_below = λ r p at. ground (arith, fit.reqs_below r p);
      homes = fit.homes;
    };
    done = λ k at. inl at;
  }

abbrev add_to_reqs : ℕ → Job → Job
add_to_reqs r b = record b { reqs = r ∷ b.reqs }

abbrev add_to_reqs_on : ℕ → Job → Job
add_to_reqs_on r b = record b { reqs_on = r ∷ b.reqs_on }

add_to_reqs-grows : (r : ℕ) (b : Job) → JobGrows b (add_to_reqs r b)
add_to_reqs-grows r b = record { same_object = refl; same_type = refl; reqs = λ x h. ground arith }

add_to_reqs_on-grows : (r : ℕ) (b : Job) → JobGrows b (add_to_reqs_on r b)
add_to_reqs_on-grows r b = record { same_object = refl; same_type = refl; reqs = λ x h. h }

module _ (j on : ℕ) (required goal : Bool) (s : Gen) (fit : IsFit s) where
  abbrev made_req : Requirement
  made_req = record { from = j; to = on; required = required; goal_required = goal }

  abbrev half_linked : Gen
  half_linked =
      let u = with_req made_req s in record u { tx = modify_job j (add_to_reqs s.tx.next_req) u.tx }

  abbrev linked : Gen
  linked = record s { tx = add_req j on required goal s.tx }

  Progress-half : Progress s half_linked
  Progress-half =
      let a = Progress-with_req made_req s fit in
      let r = s.tx.next_req in
      Progress-trans a
        (Progress-modify (add_to_reqs r) (add_to_reqs-grows r) j (with_req made_req s) a.fit)

  Progress-link : Progress half_linked linked
  unfolding add_req
  Progress-link =
      let r = s.tx.next_req in
      Progress-modify (add_to_reqs_on r) (add_to_reqs_on-grows r) on half_linked Progress-half.fit

  pub Progress-add_req : Progress s linked
  Progress-add_req = Progress-trans Progress-half Progress-link

  half_linked-link :
      (b : Job) → s.tx.job j ≡ some b → half_linked.tx.job j ≡ some (add_to_reqs s.tx.next_req b)
  half_linked-link b at = ground arith

  half_linked-req : half_linked.tx.req s.tx.next_req ≡ some made_req
  half_linked-req = ground arith

  contains_head : (r : ℕ) (rs : List ℕ) → contains r (r ∷ rs) ≡ true
  contains_head r rs = ground arith

  pub add_req-Meets :
      (v : Visitor) (name : String) (p : ℕ) (c : Job)
      → v.is_required ≡ required
      → Present s j
      → lookup name s.graph.m_aliases ≡ some p
      → contains on (jobs_at p s.tx) ≡ true
      → s.tx.job on ≡ some c
      → c.type ≡ v.op
      → Meets linked j v name
  add_req-Meets v name p c same (b, at) resolves listed target typed =
      let r = s.tx.next_req in
      let (d, d_at, d_grows) =
        Progress-link.grows.tx.jobs j (add_to_reqs r b) (half_linked-link b at) in
      let (e, e_at, e_grows) = Progress-add_req.grows.tx.jobs on c target in
      record {
        object = p;
        target = on;
        target_job = e;
        requirer = d;
        link = r;
        requirement = made_req;
        resolves = Progress-add_req.grows.graph.names name p resolves;
        is_listed = Progress-add_req.grows.tx.listed p on listed;
        target_at = e_at;
        has_type = e_grows.same_type ∙ typed;
        requirer_at = d_at;
        has_link = d_grows.reqs r (contains_head r b.reqs);
        link_at = Progress-link.grows.tx.reqs r made_req half_linked-req;
        link_from = refl;
        link_to = refl;
        link_required = sym same;
      }
