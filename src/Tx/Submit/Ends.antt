-- ===== src/Tx/Submit/Ends.antt =====
-- Job submission ends: enough fuel gives a result, whatever cycles the graph has, and no assertion
-- fails on the way.
use neo_init_ware.Common.{
  ℕ, zero, suc, ◌≤◌, ◌<◌, ◌≡◌, refl, inl, inr, String, Bool, ◌&&◌, none, List, [], ◌∷◌, Result, ok,
  >>=-runs, Bool-cases, Option-cases, lookup, arith, length,
}
use neo_init_ware.Objects.{Graph, Edge, has_flag, object_get}
use neo_init_ware.Tx.JobType.{JobType}
use neo_init_ware.Tx.Model.{Gen, jobs_at, new_job, load_job, add_req}
use neo_init_ware.Tx.Submit.{
  Visitor, visitors, edges_of, find_type, mark_goal, emplace_job, Submit, submit_name, follow_edge,
  visit_edge, visit_edges, run_visitors, submit_new, job_submit,
}
use neo_init_ware.Objects.Edges.{Owns}
use neo_init_ware.Objects.Resolve.{
  IsLive, object_get-Resolves, ObjectsBelow, created, object_create-total, created-ObjectsBelow,
}
use neo_init_ware.Tx.Submit.Progress.{IsFit, edges_of-grows}
use neo_init_ware.Tx.Submit.Steps.{
  Present, Present-grows, Progress-graph, Progress-mark, Progress-add_req,
}
use neo_init_ware.Tx.Submit.Emplace.{
  emplaced-is_listed, emplaced-new, emplaced-GenGrows, emplaced-IsFit,
}
use neo_init_ware.Tx.Submit.Measure.{
  find_type-ne-none, measure, measure-le, measure-lt, measure-create,
}
use neo_init_ware.Tx.Submit.Complete.{
  Submits, visit_edge-Progress, visit_edges-Progress, job_submit-Submits,
}

record Found (n : String) (s : Gen) : Type 0 where
  object : ℕ
  graph : Graph
  runs : object_get n s.graph ≡ ok (object, graph)
  below : ObjectsBelow graph
  less : measure (record s { graph = graph }) ≤ measure s

find_target :
    (s : Gen) (q : ℕ) (e : Edge)
    → ObjectsBelow s.graph
    → IsLive s.graph q
    → Owns e (edges_of q s.graph)
    → Found e.to s
unfolding object_get
find_target s q e below live owns = elim (Option-cases (lookup e.to s.graph.m_aliases)) [
  | inl absent ↦
      let made = object_create-total e.to s.graph below absent in
      record {
        object = length s.graph.heap;
        graph = created e.to s.graph;
        runs = rw (absent, object_get) made;
        below = created-ObjectsBelow e.to s.graph below;
        less =
            measure-create s q e e.to (length s.graph.heap) (created e.to s.graph) live owns refl
              absent made;
      }
  | inr (p, found) ↦ record {
    object = p;
    graph = s.graph;
    runs = rw (found, object_get);
    below = below;
    less = omega arith;
  }
]

-- A run that ends, with no more left to create than before.
record Ends (s : Gen) (r : Result Gen) : Type 0 where
  out : Gen
  runs : r ≡ ok out
  below : ObjectsBelow out.graph
  less : measure out ≤ measure s

pub record Returns (s : Gen) (r : Result (ℕ × Gen)) : Type 0 where
  pub job : ℕ
  pub out : Gen
  pub runs : r ≡ ok (job, out)
  pub below : ObjectsBelow out.graph
  pub less : measure out ≤ measure s

abbrev pub EndsBelow : ℕ → Submit → Type 0
EndsBelow bound submit =
    (p : ℕ) (op : JobType) (goal : Bool) (s : Gen)
    → IsFit s
    → ObjectsBelow s.graph
    → IsLive s.graph p
    → measure s < bound
    → Returns s (submit p op goal s)

module _ (bound : ℕ) (submit : Submit) (submits : Submits submit)
    (ends : EndsBelow bound submit) where
  follow_edge-Ends :
      (v : Visitor) (requirer q : ℕ) (e : Edge) (s : Gen)
      → IsFit s
      → ObjectsBelow s.graph
      → IsLive s.graph q
      → Owns e (edges_of q s.graph)
      → Present s requirer
      → measure s < bound
      → Ends s (follow_edge submit v requirer e s)
  unfolding follow_edge submit_name
  follow_edge-Ends v requirer q e s fit below live owns (b, at) small =
      let goal = b.goal_required && v.is_required in
      let f = find_target s q e below live owns in
      let resolved = object_get-Resolves e.to s.graph f.object f.graph fit.names f.runs in
      let s1 = record s { graph = f.graph } in
      let first = Progress-graph s e.to f.object f.graph fit resolved in
      let home = resolved.live e.to f.object resolved.found in
      let r = ends f.object v.op goal s1 first.fit f.below home (omega (arith, f.less)) in
      let did = submits f.object v.op goal s1 r.job r.out first.fit home r.runs in
      let last = Progress-add_req requirer r.job v.is_required goal r.out did.progress.fit in
      record {
        out = record r.out { tx = add_req requirer r.job v.is_required goal r.out.tx };
        runs = >>=-runs (load_job requirer s.tx) _ {x = b} (rw (at, load_job)) (
            >>=-runs (submit_name submit e.to v.op goal s) _
              (>>=-runs (object_get e.to s.graph) _ f.runs r.runs) refl);
        below = r.below;
        less = omega (arith, f.less, r.less, measure-le refl last.grows.tx);
      }

  visit_edge-Ends :
      (v : Visitor) (requirer q : ℕ) (e : Edge) (s : Gen)
      → IsFit s
      → ObjectsBelow s.graph
      → IsLive s.graph q
      → Owns e (edges_of q s.graph)
      → Present s requirer
      → measure s < bound
      → Ends s (visit_edge submit v requirer e s)
  unfolding visit_edge
  visit_edge-Ends v requirer q e s fit below live owns present small =
      elim (Bool-cases (has_flag v.flag e)) [
        | inl flag ↦
            let r = follow_edge-Ends v requirer q e s fit below live owns present small in
            record {
              out = r.out;
              runs = rw (flag, visit_edge) r.runs;
              below = r.below;
              less = r.less;
            }
        | inr without ↦ record {
          out = s;
          runs = rw (without, visit_edge);
          below = below;
          less = omega arith;
        }
      ]

  visit_edges-Ends :
      (v : Visitor) (requirer q : ℕ) (es : List Edge) (s : Gen)
      → IsFit s
      → ObjectsBelow s.graph
      → IsLive s.graph q
      → ((e : Edge) → Owns e es → Owns e (edges_of q s.graph))
      → Present s requirer
      → measure s < bound
      → Ends s (visit_edges submit v requirer es s)
  unfolding visit_edges
  visit_edges-Ends v requirer q [] s fit below live owns present small = record {
    out = s;
    runs = refl;
    below = below;
    less = omega arith;
  }
  visit_edges-Ends v requirer q (e ∷ es) s fit below (o, points) owns present small =
      let one =
        visit_edge-Ends v requirer q e s fit below (o, points) (owns e (inl refl)) present small in
      let first =
        (visit_edge-Progress submit submits v requirer e s one.out fit present one.runs).0 in
      let rest =
        visit_edges-Ends v requirer q es one.out first.fit one.below
          (o, first.grows.graph.objects q o points)
          (λ x later. rw (edges_of-grows q first.grows.graph (o, points)) (owns x (inr later)))
          (Present-grows requirer first.grows present) (omega (arith, one.less)) in
      record {
        out = rest.out;
        runs = >>=-runs (visit_edge submit v requirer e s) _ one.runs rest.runs;
        below = rest.below;
        less = omega (arith, one.less, rest.less);
      }

  run_visitors-Ends :
      (vs : List Visitor) (q requirer : ℕ) (s : Gen)
      → IsFit s
      → ObjectsBelow s.graph
      → IsLive s.graph q
      → Present s requirer
      → measure s < bound
      → Ends s (run_visitors submit vs q requirer s)
  unfolding run_visitors
  run_visitors-Ends [] q requirer s fit below live present small = record {
    out = s;
    runs = refl;
    below = below;
    less = omega arith;
  }
  run_visitors-Ends (v ∷ vs) q requirer s fit below (o, points) present small =
      let es = edges_of q s.graph in
      let one =
        visit_edges-Ends v requirer q es s fit below (o, points) (λ e owns. owns) present small in
      let first =
        (visit_edges-Progress submit submits v requirer es s one.out fit present one.runs).0 in
      let rest =
        run_visitors-Ends vs q requirer one.out first.fit one.below
          (o, first.grows.graph.objects q o points) (Present-grows requirer first.grows present)
          (omega (arith, one.less)) in
      record {
        out = rest.out;
        runs = >>=-runs (visit_edges submit v requirer es s) _ one.runs rest.runs;
        below = rest.below;
        less = omega (arith, one.less, rest.less);
      }

  submit_new-Returns :
      (p : ℕ) (op : JobType) (goal : Bool) (s : Gen)
      → IsFit s
      → ObjectsBelow s.graph
      → IsLive s.graph p
      → find_type op (jobs_at p s.tx) s.tx ≡ none
      → measure s < suc bound
      → Returns s (submit_new submit p op goal s)
  unfolding submit_new new_job
  submit_new-Returns p op goal s fit below live absent small =
      let n = s.tx.next_job in
      let e = record s { tx = emplace_job p op s.tx } in
      let marked = record e { tx = mark_goal goal n e.tx } in
      let m = Progress-mark goal n e (emplaced-IsFit p op s fit live) in
      let there = emplaced-new p op s fit in
      let has =
        find_type-ne-none op (jobs_at p e.tx) e.tx n (new_job p op) (emplaced-is_listed p op s fit)
          there refl in
      let fewer =
        measure-lt s (emplace_job p op s.tx) p op live (emplaced-GenGrows p op s fit).tx absent
          has in
      let same = measure-le {s = e} {t = marked} refl m.grows.tx in
      let r =
        run_visitors-Ends (visitors op) p n marked m.fit below live
          (Present-grows n m.grows (new_job p op, there)) (omega arith) in
      record {
        job = n;
        out = r.out;
        runs = >>=-runs (run_visitors submit (visitors op) p n marked) _ r.runs refl;
        below = r.below;
        less = omega (arith, r.less);
      }

-- A call returns if its fuel is above the measure.
pub job_submit-EndsBelow : (fuel : ℕ) → EndsBelow fuel (job_submit fuel)
unfolding job_submit
job_submit-EndsBelow zero p op goal s fit below live small = absurd (omega arith)
job_submit-EndsBelow (suc fuel) p op goal s fit below live small =
    elim (Option-cases (find_type op (jobs_at p s.tx) s.tx)) [
      | inl absent ↦
          let r =
            submit_new-Returns fuel (job_submit fuel) (job_submit-Submits fuel)
              (job_submit-EndsBelow fuel) p op goal s fit below live absent small in
          record {
            job = r.job;
            out = r.out;
            runs = rw (absent, job_submit) r.runs;
            below = r.below;
            less = r.less;
          }
      | inr (i, found) ↦ record {
        job = i;
        out = record s { tx = mark_goal goal i s.tx };
        runs = rw (found, job_submit);
        below = below;
        less = measure-le refl (Progress-mark goal i s fit).grows.tx;
      }
    ]
