-- ===== src/Tx/Submit/Measure.antt =====
-- A number that bounds how deep job submission can nest: for every object the job types that it has
-- no job of, and ten for every edge whose target is not yet an object.
use neo_init_ware.Common.{
  sum_below, sum_below-le, sum_below-lt, live-lt, ℕ, zero, suc, ◌+◌, ◌*◌, ◌≤◌, ◌<◌, ◌≡◌, ◌≢◌, inl,
  inr, String, true, none, some, ok, List, [], ◌∷◌, ◌++◌, contains, Option-cases, lookup,
  lookup-insert, insert, arith, length, get_elem?, eq_iff, length-append_one, sym, ap, ◌∙◌,
}
use neo_init_ware.Objects.{Graph, Edge, Schedulable, new_schedulable, object_create}
use neo_init_ware.Tx.JobType.{
  JobType, same_type_refl, start, verify, stop, reload, restart, try_start, try_restart, try_reload,
  reload_or_start, restart_or_start,
}
use neo_init_ware.Tx.Model.{Job, Transaction, Gen, jobs_at}
use neo_init_ware.Tx.Submit.{edges_of, find_type}
use neo_init_ware.Objects.Edges.{Owns}
use neo_init_ware.Objects.Resolve.{IsLive, object_create-eq-ok}
use neo_init_ware.Tx.Submit.Progress.{TxGrows}
use neo_init_ware.Tx.Submit.Complete.{find_type-eq-some}

abbrev sum_types : List JobType → (JobType → ℕ) → ℕ
sum_types [] f = 0
sum_types (t ∷ ts) f = f t + sum_types ts f

sum_types-le :
    (ts : List JobType) (f g : JobType → ℕ)
    → ((t : JobType) → f t ≤ g t)
    → sum_types ts f ≤ sum_types ts g
sum_types-le [] f g h = omega arith
sum_types-le (t ∷ ts) f g h = omega (arith, h t, sum_types-le ts f g h)

abbrev all_types : List JobType
all_types =
    start ∷ verify ∷ stop ∷ reload ∷ restart ∷ try_start ∷ try_restart ∷ try_reload
    ∷ reload_or_start ∷ restart_or_start ∷ []

sum_types-lt :
    (u : JobType) (f g : JobType → ℕ)
    → ((t : JobType) → f t ≤ g t)
    → f u < g u
    → sum_types all_types f < sum_types all_types g
sum_types-lt start f g h lt = omega (arith, h)
sum_types-lt u f g h lt = omega (arith, h)

-- 1 where the object has no job of the type.
abbrev lacks : Transaction → ℕ → JobType → ℕ
lacks tx p t = elim (find_type t (jobs_at p tx) tx) [ none ↦ 1 | some _ ↦ 0 ]

abbrev missing : Transaction → ℕ → ℕ
missing tx p = sum_types all_types (lacks tx p)

pub find_type-ne-none :
    (op : JobType) (js : List ℕ) (tx : Transaction) (j : ℕ) (b : Job)
    → contains j js ≡ true
    → tx.job j ≡ some b
    → b.type ≡ op
    → find_type op js tx ≢ none
unfolding find_type
find_type-ne-none op [] tx j b listed at typed e = cc
find_type-ne-none op (i ∷ js) tx j b listed at typed e =
    ground (arith, find_type-ne-none op js tx j b, same_type_refl op)

find_type-grows :
    (op : JobType) (p : ℕ) {s t : Transaction} (j : ℕ)
    → TxGrows s t
    → find_type op (jobs_at p s) s ≡ some j
    → find_type op (jobs_at p t) t ≢ none
find_type-grows op p {s} {t} j grows found =
    let (listed, (b, at, typed)) = find_type-eq-some op (jobs_at p s) s j found in
    let (c, c_at, c_grows) = grows.jobs j b at in
    find_type-ne-none op (jobs_at p t) t j c (grows.listed p j listed) c_at
      (c_grows.same_type ∙ typed)

lacks-le : {s t : Transaction} (p : ℕ) (op : JobType) → TxGrows s t → lacks t p op ≤ lacks s p op
lacks-le {s} {t} p op grows = elim (Option-cases (find_type op (jobs_at p s) s)) [
  | inl absent ↦ ground arith
  | inr (j, found) ↦ ground (arith, find_type-grows op p j grows found)
]

missing-le : {s t : Transaction} (p : ℕ) → TxGrows s t → missing t p ≤ missing s p
missing-le {s} {t} p grows =
    sum_types-le all_types (lacks t p) (lacks s p) (λ op. lacks-le p op grows)

missing-lt :
    {s t : Transaction} (p : ℕ) (op : JobType)
    → TxGrows s t
    → find_type op (jobs_at p s) s ≡ none
    → find_type op (jobs_at p t) t ≢ none
    → missing t p < missing s p
missing-lt {s} {t} p op grows absent there =
    sum_types-lt op (lacks t p) (lacks s p) (λ u. lacks-le p u grows) (ground arith)

missing-le-ten : (tx : Transaction) (p : ℕ) → missing tx p ≤ 10
missing-le-ten tx p = sum_types-le all_types (lacks tx p) (λ _. 1) (λ t. ground arith)

-- 1 where the edge's target is not yet an object.
abbrev is_open : List (String × ℕ) → Edge → ℕ
is_open names e = elim (lookup e.to names) [ none ↦ 1 | some _ ↦ 0 ]

abbrev open_edges : List (String × ℕ) → List Edge → ℕ
open_edges names [] = 0
open_edges names (e ∷ es) = is_open names e + open_edges names es

abbrev open_heap : List (String × ℕ) → List Schedulable → ℕ
open_heap names [] = 0
open_heap names (o ∷ os) = open_edges names o.edges + open_heap names os

module _ (n : String) (p : ℕ) (names : List (String × ℕ)) where
  is_open-le : (e : Edge) → is_open (insert n p names) e ≤ is_open names e
  is_open-le e = ground (arith, lookup-insert n e.to p names)

  open_edges-le : (es : List Edge) → open_edges (insert n p names) es ≤ open_edges names es
  open_edges-le [] = omega arith
  open_edges-le (e ∷ es) = omega (arith, is_open-le e, open_edges-le es)

  open_heap-le : (os : List Schedulable) → open_heap (insert n p names) os ≤ open_heap names os
  open_heap-le [] = omega arith
  open_heap-le (o ∷ os) = omega (arith, open_edges-le o.edges, open_heap-le os)

  is_open-lt :
      (e : Edge) → e.to ≡ n → lookup n names ≡ none → is_open (insert n p names) e < is_open names e
  is_open-lt e to absent = ground (arith, lookup-insert n e.to p names, eq_iff n e.to)

  open_edges-lt :
      (es : List Edge) (e : Edge)
      → Owns e es
      → e.to ≡ n
      → lookup n names ≡ none
      → open_edges (insert n p names) es < open_edges names es
  open_edges-lt [] e owns to absent = absurd owns
  open_edges-lt (x ∷ xs) e (inl here) to absent =
      omega (arith, is_open-lt x (ap (λ y. y.to) (sym here) ∙ to) absent, open_edges-le xs)
  open_edges-lt (x ∷ xs) e (inr later) to absent =
      omega (arith, is_open-le x, open_edges-lt xs e later to absent)

  open_heap-lt :
      (os : List Schedulable) (i : ℕ) (o : Schedulable) (e : Edge)
      → get_elem? os i ≡ some o
      → Owns e o.edges
      → e.to ≡ n
      → lookup n names ≡ none
      → open_heap (insert n p names) os < open_heap names os
  open_heap-lt [] i o e at owns to absent = cc
  open_heap-lt (x ∷ xs) zero o e at owns to absent =
      let same : x ≡ o = cc in
      let owned : Owns e x.edges = rw same owns in
      omega (arith, open_edges-lt x.edges e owned to absent, open_heap-le xs)
  open_heap-lt (x ∷ xs) (suc i) o e at owns to absent =
      omega (arith, open_edges-le x.edges, open_heap-lt xs i o e at owns to absent)

-- A bound on the calls that may still create a job.
unfoldable pub measure : Gen → ℕ
measure s =
    sum_below (length s.graph.heap) (missing s.tx) + 10 * open_heap s.graph.m_aliases s.graph.heap

sum_below-append :
    (tx : Transaction) (n : ℕ) → sum_below (suc n) (missing tx) ≤ sum_below n (missing tx) + 10
sum_below-append tx n = omega (arith, missing-le-ten tx n)

open_heap-append :
    (names : List (String × ℕ)) (os : List Schedulable) (name : String)
    → open_heap names (os ++ (new_schedulable name ∷ [])) ≡ open_heap names os
unfolding new_schedulable
open_heap-append names [] name = omega arith
open_heap-append names (o ∷ os) name = omega (arith, open_heap-append names os name)

-- Growing at the same objects.
pub measure-le : {s t : Gen} → s.graph ≡ t.graph → TxGrows s.tx t.tx → measure t ≤ measure s
unfolding measure
measure-le {s} {t} same grows = rw (← same) (
    omega (
      arith,
      sum_below-le (length s.graph.heap) (missing t.tx) (missing s.tx) (λ p. missing-le p grows),
    ))

-- A job of a type that the object had no job of.
pub measure-lt :
    (s : Gen) (tx : Transaction) (p : ℕ) (op : JobType)
    → IsLive s.graph p
    → TxGrows s.tx tx
    → find_type op (jobs_at p s.tx) s.tx ≡ none
    → find_type op (jobs_at p tx) tx ≢ none
    → measure (record s { tx = tx }) < measure s
unfolding measure
measure-lt s tx p op (o, points) grows absent there = omega (
  arith,
  sum_below-lt (length s.graph.heap) p (missing tx) (missing s.tx) (λ q. missing-le q grows)
      (live-lt s.graph.heap p o points) (missing-lt p op grows absent there),
)

-- A placeholder for the target of an edge.
pub measure-create :
    (s : Gen) (q : ℕ) (e : Edge) (n : String) (p : ℕ) (h : Graph)
    → IsLive s.graph q
    → Owns e (edges_of q s.graph)
    → e.to ≡ n
    → lookup n s.graph.m_aliases ≡ none
    → object_create n s.graph ≡ ok (p, h)
    → measure (record s { graph = h }) ≤ measure s
unfolding measure
measure-create s q e n p h (o, points) owns to absent created =
    let (at, heap, names) = object_create-eq-ok n s.graph p h created in
    let os = s.graph.heap in
    rw (heap, names, length-append_one os (new_schedulable n))
      (omega (
        arith,
        sum_below-append s.tx (length os),
        open_heap-append (insert n p s.graph.m_aliases) os n,
        open_heap-lt n p s.graph.m_aliases os q o e points (rw (points, edges_of) at owns) to
            absent,
      ))

-- Ten for each object and each edge.
abbrev edge_count : List Schedulable → ℕ
edge_count [] = 0
edge_count (o ∷ os) = length o.edges + edge_count os

unfoldable pub ten_each : Graph → ℕ
ten_each g = 10 * length g.heap + 10 * edge_count g.heap

open_edges-le-length :
    (names : List (String × ℕ)) (es : List Edge) → open_edges names es ≤ length es
open_edges-le-length names [] = omega arith
open_edges-le-length names (e ∷ es) = ground (arith, open_edges-le-length names es)

open_heap-le-edge_count :
    (names : List (String × ℕ)) (os : List Schedulable) → open_heap names os ≤ edge_count os
open_heap-le-edge_count names [] = omega arith
open_heap-le-edge_count names (o ∷ os) =
    omega (arith, open_edges-le-length names o.edges, open_heap-le-edge_count names os)

sum_below-le-ten : (tx : Transaction) (n : ℕ) → sum_below n (missing tx) ≤ 10 * n
sum_below-le-ten tx zero = omega arith
sum_below-le-ten tx (suc n) = omega (arith, missing-le-ten tx n, sum_below-le-ten tx n)

pub measure-le-ten_each : (s : Gen) → measure s ≤ ten_each s.graph
unfolding measure ten_each
measure-le-ten_each s = omega (
  arith,
  sum_below-le-ten s.tx (length s.graph.heap),
  open_heap-le-edge_count s.graph.m_aliases s.graph.heap,
)
