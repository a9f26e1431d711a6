-- ===== src/Objects/Registry.antt =====
-- Edges, objects, and the scheduler's map from names to objects.
use Prim.Native.Nat.{bit_and}
use neo_init_ware.Common.{
  ℕ, ◌≡◌, ◌==◌, ◌++◌, ◌>>=◌, ◌>>◌, String, Bool, not, none, some, List, [], ◌∷◌, Result, ok,
  assert_failed, undefined, err, guard, contains, contains_name, lookup, insert, erase_name, length,
  get_elem?, change, if◌then◌else◌,
}

-- `enum Schedulable::State`
pub data State : Type 0 where
  uninitialised offline starting online stopping maintenance k_max : State

pub record Edge : Type 0 where
  pub type : ℕ
  pub owner : String
  pub from : String
  pub to : String

-- `edge->type & flag`, as a condition
unfoldable pub has_flag : ℕ → Edge → Bool
has_flag flag edge = not (bit_and edge.type flag == 0)

pub record Schedulable : Type 0 where
  pub main_alias : String
  pub aliases : List String
  pub edges : List Edge
  pub edges_to : List Edge
  pub state : State

-- The constructor of `Schedulable`.
unfoldable pub new_schedulable : String → Schedulable
new_schedulable name = record {
  main_alias = name;
  aliases = name ∷ [];
  edges = [];
  edges_to = [];
  state = State.uninitialised;
}

-- The part of `class Scheduler` that keeps the objects.
pub record Graph : Type 0 where
  pub heap : List Schedulable
  pub objects : List ℕ
  pub m_aliases : List (String × ℕ)
  pub m_loadqueue : List String

abbrev pub Points : Graph → ℕ → Schedulable → Type 0
Points g p o = get_elem? g.heap p ≡ some o

-- `ObjectId::operator==(const Schedulable::SPtr &)`
abbrev pub names_object : Graph → String → ℕ → Bool
names_object g name p = elim (get_elem? g.heap p) [
  | some o ↦ contains_name name o.aliases
  | none ↦ Bool.false
]

-- A change of the object behind a pointer. No pointer of a well-formed graph is dangling.
abbrev pub modify : ℕ → (Schedulable → Schedulable) → Graph → Graph
modify p f g = record g { heap = change g.heap p f }

-- `std::make_shared<Schedulable>(name)`: the new object's pointer is the old length of the heap.
abbrev pub allocate : Schedulable → Graph → Graph
allocate o g = record g { heap = g.heap ++ (o ∷ []) }

abbrev pub bound_elsewhere : String → ℕ → Graph → Bool
bound_elsewhere id p g = elim (lookup id g.m_aliases) [ none ↦ Bool.false | some q ↦ not (p == q) ]

-- `Scheduler::object_add(ObjectId, SPtr)`, with its two assertions.
unfoldable pub object_add : String → ℕ → Graph → Result Graph
object_add id p g = do
  guard (not (contains p g.objects)) assert_failed
  guard (not (bound_elsewhere id p g)) assert_failed
  ok (record g { objects = p ∷ g.objects; m_aliases = insert id p g.m_aliases })

-- The branch of `object_get` for a name that has no object: a placeholder is made and queued.
unfoldable pub object_create : String → Graph → Result (ℕ × Graph)
unfolding new_schedulable object_add
object_create id g = do
  let p = length g.heap
  let queued = record g { m_loadqueue = g.m_loadqueue ++ (id ∷ []) }
  g' ← object_add id p (allocate (new_schedulable id) queued)
  ok (p, g')

-- `Scheduler::object_get`
unfoldable pub object_get : String → Graph → Result (ℕ × Graph)
unfolding object_create
object_get id g = elim (lookup id g.m_aliases) [ some p ↦ ok (p, g) | none ↦ object_create id g ]

abbrev pub add_edge : Edge → Schedulable → Schedulable
add_edge e o = record o { edges = o.edges ++ (e ∷ []) }

abbrev pub add_edge_to : Edge → Schedulable → Schedulable
add_edge_to e o = record o { edges_to = o.edges_to ++ (e ∷ []) }

-- `Scheduler::edge_add`. The first lookup, of `from` again, is for a variable that is not used.
unfoldable pub edge_add : (type : ℕ) (owner from to : String) → Graph → Result Graph
unfolding object_get
edge_add type owner from to g = do
  (_, g1) ← object_get from g
  (ofrom, g2) ← object_get from g1
  (oto, g3) ← object_get to g2
  let e : Edge = record { type = type; owner = owner; from = from; to = to }
  ok (modify oto (add_edge_to e) (modify ofrom (add_edge e) g3))

-- The edges that the names own, and the others, each in their order.
unfoldable pub owned : List String → List Edge → List Edge
owned names [] = []
owned names (e ∷ es) = if contains_name e.owner names then e ∷ owned names es else owned names es

unfoldable pub unowned : List String → List Edge → List Edge
unowned names [] = []
unowned names (e ∷ es) =
    if contains_name e.owner names then unowned names es else e ∷ unowned names es

abbrev pub keep_owned : Schedulable → Schedulable
unfolding owned
keep_owned o = record o { edges = owned o.aliases o.edges; edges_to = owned o.aliases o.edges_to }

abbrev pub take_unowned : Schedulable → Schedulable → Schedulable
unfolding unowned
take_unowned old o = record o {
  edges = o.edges ++ unowned old.aliases old.edges;
  edges_to = o.edges_to ++ unowned old.aliases old.edges_to;
}

-- `Scheduler::object_remap_unowned_edges`
unfoldable pub object_remap_unowned_edges : (obj newobj : ℕ) → Graph → Graph
unfolding owned unowned
object_remap_unowned_edges obj newobj g = elim (get_elem? g.heap obj) [
  | none ↦ g
  | some old ↦ modify newobj (take_unowned old) (modify obj keep_owned g)
]

-- The first loop of `object_load`: the object that had a name loses it.
unfoldable pub unbind_name : String → ℕ → Graph → Graph
unfolding object_remap_unowned_edges
unbind_name name p g = elim (lookup name g.m_aliases) [
  | none ↦ g
  | some old ↦
      let moved = object_remap_unowned_edges old p g in
      record moved { m_aliases = erase_name name moved.m_aliases }
]

unfoldable pub unbind_names : List String → ℕ → Graph → Graph
unfolding unbind_name
unbind_names [] p g = g
unbind_names (name ∷ names) p g = unbind_names names p (unbind_name name p g)

abbrev pub add_name : String → Schedulable → Schedulable
add_name name o = record o {
  aliases = if contains_name name o.aliases then o.aliases else name ∷ o.aliases;
}

-- The second loop: the new object gets the names.
abbrev pub bind_name : String → ℕ → Graph → Graph
bind_name name p g = record (modify p (add_name name) g) { m_aliases = insert name p g.m_aliases }

unfoldable pub bind_names : List String → ℕ → Graph → Graph
bind_names [] p g = g
bind_names (name ∷ names) p g = bind_names names p (bind_name name p g)

-- The loops over `edges_from` and `edges_to`: maps from names to edge masks.
unfoldable pub add_edges_from : String → List (String × ℕ) → Graph → Result Graph
unfolding edge_add
add_edges_from self [] g = ok g
add_edges_from self ((name, type) ∷ es) g = do
  g' ← edge_add type self self name g
  add_edges_from self es g'

unfoldable pub add_edges_to : String → List (String × ℕ) → Graph → Result Graph
unfolding edge_add
add_edges_to self [] g = ok g
add_edges_to self ((name, type) ∷ es) g = do
  g' ← edge_add type self name self g
  add_edges_to self es g'

-- `Scheduler::object_load`. `aliases.front()` of no aliases is undefined.
unfoldable pub object_load :
    List String → (edges_from edges_to : List (String × ℕ)) → Graph → Result Graph
unfolding new_schedulable unbind_names bind_names add_edges_from add_edges_to
object_load [] edges_from edges_to g = err undefined
object_load (name ∷ names) edges_from edges_to g = do
  let p = length g.heap
  let loaded = record (new_schedulable name) { state = State.offline }
  let made = allocate loaded (record g { objects = p ∷ g.objects })
  let named = bind_names (name ∷ names) p (unbind_names (name ∷ names) p made)
  g' ← add_edges_from name edges_from named
  add_edges_to name edges_to g'

-- `Scheduler::object_set_state`. `m_aliases[id]` of an unknown name is a null pointer.
unfoldable pub object_set_state : String → State → Graph → Result Graph
object_set_state id state g = elim (lookup id g.m_aliases) [
  | none ↦ err undefined
  | some p ↦ ok (modify p (λ o. record o { state = state }) g)
]

abbrev pub no_objects : Graph
no_objects = record { heap = []; objects = []; m_aliases = []; m_loadqueue = [] }
