-- ===== src/Tests/Samples.antt =====
-- Small object graphs.
use neo_init_ware.Common.{
  ℕ, ◌+◌, ◌≡◌, refl, sym, ◌∙◌, subst, String, List, [], ◌∷◌, Result, ok, ok-injective,
}
use neo_init_ware.Objects.{Graph, Edge, Schedulable, State, no_objects, object_load}
use neo_init_ware.Objects.EdgeType
use neo_init_ware.Objects.Sound.{IsSound, no_objects-IsSound}
use neo_init_ware.Objects.Loading.{object_load-Loaded}

abbrev pub unit : String → List (String × ℕ) → Graph → Result Graph
unit name edges = object_load (name ∷ []) edges []

abbrev pub require_after : ℕ
require_after = EdgeType.add_start + EdgeType.after

abbrev pub want_after : ℕ
want_after = EdgeType.add_start_nonreq + EdgeType.after

pub unit-IsSound :
    (name : String) (edges : List (String × ℕ)) (g h : Graph)
    → unit name edges g ≡ ok h
    → IsSound g
    → IsSound h
unit-IsSound name edges g h loads s =
    let (h', runs, loaded) = object_load-Loaded name [] edges [] g s in
    subst IsSound (ok-injective (sym runs ∙ loads)) loaded.sound

abbrev pub edge_a_b : Edge
edge_a_b = record {
  type = require_after;
  owner = "default.target";
  from = "default.target";
  to = "b";
}

abbrev pub object_of : String → List Edge → List Edge → Schedulable
object_of name edges edges_to = record {
  main_alias = name;
  aliases = name ∷ [];
  edges = edges;
  edges_to = edges_to;
  state = State.offline;
}

abbrev pub single : Graph
single = record {
  heap = object_of "b" [] [] ∷ [];
  objects = 0 ∷ [];
  m_aliases = ("b", 0) ∷ [];
  m_loadqueue = [];
}

-- a, whose name is default.target, requires b, and runs after it.
abbrev pub pair : Graph
pair = record {
  heap = object_of "b" [] (edge_a_b ∷ []) ∷ object_of "default.target" (edge_a_b ∷ []) [] ∷ [];
  objects = 1 ∷ 0 ∷ [];
  m_aliases = ("b", 0) ∷ ("default.target", 1) ∷ [];
  m_loadqueue = [];
}

single_loads : unit "b" [] no_objects ≡ ok single
unfolding object_load
single_loads = refl

pair_loads : unit "default.target" (("b", require_after) ∷ []) single ≡ ok pair
unfolding object_load
pair_loads = refl

pub single-IsSound : IsSound single
single-IsSound = unit-IsSound "b" [] no_objects single single_loads no_objects-IsSound

pub pair-IsSound : IsSound pair
pair-IsSound =
    unit-IsSound "default.target" (("b", require_after) ∷ []) single pair pair_loads single-IsSound
