-- ===== src/Objects/Loading.antt =====
-- `object_load`: the new object takes over its names, and the edges that others own.
use neo_init_ware.Common.{
  lt-live, ℕ, ◌≡◌, ◌<◌, refl, String, true, false, some, List, [], ◌∷◌, Result, ok, lookup, length,
  length-append_one, if◌then◌else◌, arith, contains, contains_name, >>=-runs,
}
use neo_init_ware.Objects.Registry.{
  Graph, Schedulable, State, allocate, new_schedulable, unbind_names, bind_names, edge_add,
  add_edges_from, add_edges_to, object_load,
}
use neo_init_ware.Objects.Resolve.{IsLive}
use neo_init_ware.Objects.Sound.{IsSound, Named, allocate-Named}
use neo_init_ware.Objects.Edges.{edge_add-Added}
use neo_init_ware.Objects.Names.{
  unbind_names-IsSound, bind_names-IsSound, lookup-bind_names, lookup-unbind_names,
  unbind_names-length,
}

-- A run of a loop that adds edges.
record AddsEdges (g : Graph) (r : Result Graph) : Type 0 where
  graph : Graph
  runs : r ≡ ok graph
  sound : IsSound graph
  names : (n : String) (p : ℕ) → lookup n g.m_aliases ≡ some p → lookup n graph.m_aliases ≡ some p

add_edges_from-AddsEdges :
    (self : String) (es : List (String × ℕ)) (g : Graph)
    → IsSound g
    → AddsEdges g (add_edges_from self es g)
unfolding add_edges_from
add_edges_from-AddsEdges self [] g s = record {
  graph = g;
  runs = refl;
  sound = s;
  names = λ n p e. e;
}
add_edges_from-AddsEdges self ((name, type) ∷ es) g s =
    let (h, added, a) = edge_add-Added type self self name g s in
    let rest = add_edges_from-AddsEdges self es h a.sound in
    record {
      graph = rest.graph;
      runs = >>=-runs (edge_add type self self name g) _ added rest.runs;
      sound = rest.sound;
      names = λ n p e. rest.names n p (a.names n p e);
    }

add_edges_to-AddsEdges :
    (self : String) (es : List (String × ℕ)) (g : Graph)
    → IsSound g
    → AddsEdges g (add_edges_to self es g)
unfolding add_edges_to
add_edges_to-AddsEdges self [] g s = record {
  graph = g;
  runs = refl;
  sound = s;
  names = λ n p e. e;
}
add_edges_to-AddsEdges self ((name, type) ∷ es) g s =
    let (h, added, a) = edge_add-Added type self name self g s in
    let rest = add_edges_to-AddsEdges self es h a.sound in
    record {
      graph = rest.graph;
      runs = >>=-runs (edge_add type self name self g) _ added rest.runs;
      sound = rest.sound;
      names = λ n p e. rest.names n p (a.names n p e);
    }

-- The new object, in the set but under no name yet.
abbrev with_object : Schedulable → Graph → Graph
with_object o g = allocate o (record g { objects = length g.heap ∷ g.objects })

with_object-IsSound : (o : Schedulable) (g : Graph) → IsSound g → IsSound (with_object o g)
with_object-IsSound o g s = record { named = named'; below = below' }
  where
    named' : (n : String) (q : ℕ) → lookup n g.m_aliases ≡ some q → Named (with_object o g) n q
    named' n q e =
        let x = allocate-Named o g n q (s.named n q e) in
        record { object = x.object; at = x.at; has_name = x.has_name }

    below' :
        (q : ℕ) → contains q (length g.heap ∷ g.objects) ≡ true → q < length (with_object o g).heap
    below' q h = ground (arith, s.below q, length-append_one g.heap o)

module _ (o : Schedulable) (names : List String) (g : Graph) (s : IsSound g) where
  abbrev freed : Graph
  freed = unbind_names names (length g.heap) (with_object o g)

  abbrev named_object : Graph
  named_object = bind_names names (length g.heap) freed

  freed-IsLive : IsLive freed (length g.heap)
  freed-IsLive = lt-live freed.heap (length g.heap) (
      omega (
        arith,
        unbind_names-length names (length g.heap) (with_object o g),
        length-append_one g.heap o,
      ))

  named_object-IsSound : IsSound named_object
  named_object-IsSound =
      bind_names-IsSound names (length g.heap) freed freed-IsLive
        (unbind_names-IsSound names (length g.heap) (with_object o g) (with_object-IsSound o g s))

  lookup-named_object :
      (n : String)
      → lookup n named_object.m_aliases
        ≡ (if contains_name n names then some (length g.heap) else lookup n g.m_aliases)
  lookup-named_object n = ground (
    arith,
    lookup-bind_names n names (length g.heap) freed,
    lookup-unbind_names n names (length g.heap) (with_object o g),
  )

-- What `object_load` leaves behind.
pub record Loaded (names : List String) (g h : Graph) : Type 0 where
  pub sound : IsSound h
  pub bound :
      (n : String) → contains_name n names ≡ true → lookup n h.m_aliases ≡ some (length g.heap)
  pub others :
      (n : String) (p : ℕ)
      → contains_name n names ≡ false
      → lookup n g.m_aliases ≡ some p
      → lookup n h.m_aliases ≡ some p

-- On a sound map `object_load` succeeds for any names and edges, the map stays sound, each of the
-- names leads to the new object, and every other name leads to the object that it led to.
pub object_load-Loaded :
    (name : String) (names : List String) (edges_from edges_to : List (String × ℕ)) (g : Graph)
    → IsSound g
    → (h : Graph) × (object_load (name ∷ names) edges_from edges_to g ≡ ok h)
      × Loaded (name ∷ names) g h
unfolding object_load bind_names unbind_names new_schedulable
object_load-Loaded name names edges_from edges_to g s =
    let ns = name ∷ names in
    let o = record (new_schedulable name) { state = State.offline } in
    let from_named =
      add_edges_from-AddsEdges name edges_from (named_object o ns g s)
        (named_object-IsSound o ns g s) in
    let done = add_edges_to-AddsEdges name edges_to from_named.graph from_named.sound in
    let found = lookup-named_object o ns g s in
    let keeps = λ (n : String) (p : ℕ) (e : lookup n (named_object o ns g s).m_aliases ≡ some p).
      done.names n p (from_named.names n p e) in
    (
      done.graph,
      >>=-runs (add_edges_from name edges_from (named_object o ns g s)) _ from_named.runs done.runs,
      record {
        sound = done.sound;
        bound = λ n h. keeps n (length g.heap) (rw (found n, h));
        others = λ n p h e. keeps n p (rw (found n, h) e);
      },
    )
