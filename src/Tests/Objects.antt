-- ===== src/Tests/Objects.antt =====
-- The operations on objects, on small graphs.
use neo_init_ware.Common.{
  sym, ap, ◌∙◌, ◌⊎◌, inl, inr, none, some, lookup, same_name, if◌then◌else◌, cons_head, cons_tail,
  List, Result, ℕ, arith, String, ◌≡◌, refl, [], ◌∷◌, ok, err, undefined,
}
use neo_init_ware.Objects.{Graph, State, object_load, object_set_state, edge_add}
use neo_init_ware.Objects.EdgeType
use neo_init_ware.Objects.Edges.{Added, edge_add-Added}
use neo_init_ware.Objects.LoadQueue.{
  Load, Loads, Dispatched, dispatch_load_queue, dispatch_load_queue_empties,
}
use neo_init_ware.Objects.Loading.{Loaded, object_load-Loaded}
use neo_init_ware.Tests.Samples.{pair, pair-IsSound}

-- b has been loaded, and c is not known: a placeholder is made.
edge_add-Added_example :
    (h : Graph) × (edge_add EdgeType.after "default.target" "default.target" "c" pair ≡ ok h)
    × Added
        (record {
          type = EdgeType.after;
          owner = "default.target";
          from = "default.target";
          to = "c";
        })
        pair
        h
edge_add-Added_example =
    edge_add-Added EdgeType.after "default.target" "default.target" "c" pair pair-IsSound

-- b is loaded once more, under one name more.
object_load-Loaded_example :
    (h : Graph) × (object_load ("b" ∷ "z" ∷ []) [] (("default.target", EdgeType.after) ∷ []) pair
      ≡ ok h)
    × Loaded ("b" ∷ "z" ∷ []) pair h
object_load-Loaded_example =
    object_load-Loaded "b" ("z" ∷ []) [] (("default.target", EdgeType.after) ∷ []) pair pair-IsSound

set_state_unknown : object_set_state "c" State.online pair ≡ err undefined
unfolding object_set_state
set_state_unknown = refl

-- A name is queued, and a loader defines an object for each: c is after d, which it makes queued.
abbrev edges_for : String → List (String × ℕ)
edges_for id = if same_name id "c" then ("d", EdgeType.after) ∷ [] else []

abbrev define : Load
unfolding object_load
define id g = object_load (id ∷ []) (edges_for id) [] g

abbrev result_of : Result Graph → Graph
result_of r = elim r [ ok g ↦ g | err _ ↦ pair ]

abbrev c_queued : Graph
c_queued = record pair { m_loadqueue = "c" ∷ [] }

abbrev d_queued : Graph
unfolding object_load
d_queued = record (result_of (define "c" c_queued)) { m_loadqueue = "d" ∷ [] }

abbrev both_loaded : Graph
unfolding object_load
both_loaded = record (result_of (define "d" d_queued)) { m_loadqueue = [] }

-- Whether d has not been queued yet.
abbrev d_unknown : Graph → ℕ
d_unknown g = elim (lookup "d" g.m_aliases) [ none ↦ 1 | some _ ↦ 0 ]

abbrev OneOfThem : Graph → Type 0
OneOfThem f = (f ≡ c_queued) ⊎ (f ≡ d_queued) ⊎ (f ≡ both_loaded)

c-Loads : Loads define OneOfThem d_unknown "c" [] c_queued
unfolding object_load
c-Loads = record {
  out = result_of (define "c" c_queued);
  added = "d" ∷ [];
  runs = refl;
  queued = refl;
  fewer = omega arith;
  good = inr (inl refl);
}

d-Loads : Loads define OneOfThem d_unknown "d" [] d_queued
unfolding object_load
d-Loads = record {
  out = result_of (define "d" d_queued);
  added = [];
  runs = refl;
  queued = refl;
  fewer = omega arith;
  good = inr (inr refl);
}

define-Loads :
    (id : String) (rest : List String) (f : Graph)
    → OneOfThem f
    → f.m_loadqueue ≡ id ∷ rest
    → Loads define OneOfThem d_unknown id rest f
unfolding object_load
define-Loads id rest f (inl is) queue =
    let front : "c" ∷ [] ≡ id ∷ rest = sym (ap (λ g. g.m_loadqueue) is) ∙ queue in
    rw (is, ← cons_head front, ← cons_tail front) c-Loads
define-Loads id rest f (inr (inl is)) queue =
    let front : "d" ∷ [] ≡ id ∷ rest = sym (ap (λ g. g.m_loadqueue) is) ∙ queue in
    rw (is, ← cons_head front, ← cons_tail front) d-Loads
define-Loads id rest f (inr (inr is)) queue =
    let front : [] ≡ id ∷ rest = sym (ap (λ g. g.m_loadqueue) is) ∙ queue in absurd (cc front)

dispatch_load_queue_empties_example :
    (h : Graph) × (ids : List String) × (dispatch_load_queue define 3 c_queued ≡ ok h)
    × Dispatched define c_queued ids h
    × (h.m_loadqueue ≡ [])
dispatch_load_queue_empties_example =
    dispatch_load_queue_empties define OneOfThem d_unknown c_queued define-Loads (inl refl)
