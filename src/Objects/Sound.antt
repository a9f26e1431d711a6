-- ===== src/Objects/Sound.antt =====
-- The map of names always leads to live objects that have the name, through every operation on
-- objects.
use neo_init_ware.Common.{
  ℕ, ◌≡◌, inl, inr, String, true, some, ◌==◌, [], ◌∷◌, ok, lookup, lookup-insert, length, same_name,
  Bool-cases, Option-cases, get_elem?-append, get_elem?-append_last, get_elem?-change,
  length-change, if◌then◌else◌, arith, eq_iff, contains_name,
}
use neo_init_ware.Objects.Registry.{
  Graph, Schedulable, Points, modify, allocate, object_get, new_schedulable, no_objects,
}
use neo_init_ware.Objects.Resolve.{
  AliasesLive, ObjectsBelow, created, created-ObjectsBelow, object_create-total, Resolves,
  object_get-Resolves,
}

pub record Named (g : Graph) (n : String) (p : ℕ) : Type 0 where
  pub object : Schedulable
  pub at : Points g p object
  pub has_name : contains_name n object.aliases ≡ true

-- Every name leads to a live object that has the name, and the set of objects has live ones only.
pub record IsSound (g : Graph) : Type 0 where
  pub named : (n : String) (p : ℕ) → lookup n g.m_aliases ≡ some p → Named g n p
  pub below : ObjectsBelow g

pub IsSound-AliasesLive : {g : Graph} → IsSound g → AliasesLive g
IsSound-AliasesLive s n p e = let m = s.named n p e in (m.object, m.at)

pub no_objects-IsSound : IsSound no_objects
no_objects-IsSound = record { named = λ n p e. cc; below = λ q h. cc }

-- A change that takes no name away.
abbrev pub KeepsNames : (Schedulable → Schedulable) → Type 0
KeepsNames f =
    (o : Schedulable) (n : String)
    → contains_name n o.aliases ≡ true
    → contains_name n (f o).aliases ≡ true

module _ (f : Schedulable → Schedulable) (keeps : KeepsNames f) (p : ℕ) (g : Graph) where
  pub modify-Named : (n : String) (q : ℕ) → Named g n q → Named (modify p f g) n q
  modify-Named n q m = record {
    object = if p == q then f m.object else m.object;
    at = get_elem?-change f g.heap p q m.object m.at;
    has_name = ground (arith, m.has_name, keeps m.object n m.has_name);
  }

  pub modify-IsSound : IsSound g → IsSound (modify p f g)
  modify-IsSound s = record {
    named = λ n q e. modify-Named n q (s.named n q e);
    below = λ q h. omega (arith, s.below q h, length-change f g.heap p);
  }

pub allocate-Named :
    (o : Schedulable) (g : Graph) (n : String) (q : ℕ) → Named g n q → Named (allocate o g) n q
allocate-Named o g n q m = record {
  object = m.object;
  at = get_elem?-append g.heap (o ∷ []) q m.at;
  has_name = m.has_name;
}

created-IsSound : (n : String) (g : Graph) → IsSound g → IsSound (created n g)
unfolding new_schedulable
created-IsSound n g s = record { named = named'; below = created-ObjectsBelow n g s.below }
  where
    o : Schedulable
    o = new_schedulable n

    named_new : (m : String) (q : ℕ) → n ≡ m → length g.heap ≡ q → Named (created n g) m q
    named_new m q same at =
        rw (← same, ← at)
          (record {
            object = o;
            at = get_elem?-append_last g.heap o;
            has_name = ground (arith, eq_iff n n);
          })

    named' :
        (m : String) (q : ℕ) → lookup m (created n g).m_aliases ≡ some q → Named (created n g) m q
    named' m q e = elim (Bool-cases (same_name n m)) [
      | inl same ↦
          named_new m q ((eq_iff n m).0 same)
            (ground (arith, lookup-insert n m (length g.heap) g.m_aliases))
      | inr other ↦
          let m' = s.named m q (ground (arith, lookup-insert n m (length g.heap) g.m_aliases)) in
          record {
            object = m'.object;
            at = get_elem?-append g.heap (o ∷ []) q m'.at;
            has_name = m'.has_name;
          }
    ]

-- `object_get` succeeds, and keeps the map sound.
pub record Gets (n : String) (g : Graph) : Type 0 where
  pub object : ℕ
  pub graph : Graph
  pub runs : object_get n g ≡ ok (object, graph)
  pub sound : IsSound graph
  pub resolves : Resolves n g object graph

pub object_get-Gets : (n : String) (g : Graph) → IsSound g → Gets n g
unfolding object_get
object_get-Gets n g s = elim (Option-cases (lookup n g.m_aliases)) [
  | inl absent ↦
      let made = object_create-total n g s.below absent in
      let runs : object_get n g ≡ ok (length g.heap, created n g) = rw (absent, object_get) made in
      record {
        object = length g.heap;
        graph = created n g;
        runs = runs;
        sound = created-IsSound n g s;
        resolves =
            object_get-Resolves n g (length g.heap) (created n g) (IsSound-AliasesLive s) runs;
      }
  | inr (p, found) ↦
      let runs : object_get n g ≡ ok (p, g) = rw (found, object_get) in
      record {
        object = p;
        graph = g;
        runs = runs;
        sound = s;
        resolves = object_get-Resolves n g p g (IsSound-AliasesLive s) runs;
      }
]
