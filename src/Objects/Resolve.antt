-- ===== src/Objects/Resolve.antt =====
-- Looking a name up: the objects only get more, and every name has a live object.
use neo_init_ware.Common.{
  ℕ, ◌≡◌, ◌++◌, inl, inr, String, none, some, [], ◌∷◌, Result, ok, lookup, lookup-insert, length,
  insert, same_name, Bool-cases, Option-cases, get_elem?-append, get_elem?-append_last,
  if◌then◌else◌, arith, eq_iff, contains, length-append_one, true, ◌<◌,
}
use neo_init_ware.Objects.Registry.{
  Graph, Schedulable, Points, object_get, object_create, new_schedulable,
}

-- The objects only get more.
pub record GraphGrows (g h : Graph) : Type 0 where
  pub names : (n : String) (p : ℕ) → lookup n g.m_aliases ≡ some p → lookup n h.m_aliases ≡ some p
  pub objects : (p : ℕ) (o : Schedulable) → Points g p o → Points h p o

abbrev pub IsLive : Graph → ℕ → Type 0
IsLive g p = (o : Schedulable) × Points g p o

abbrev pub AliasesLive : Graph → Type 0
AliasesLive g = (n : String) (p : ℕ) → lookup n g.m_aliases ≡ some p → IsLive g p

pub GraphGrows-refl : (g : Graph) → GraphGrows g g
GraphGrows-refl g = record { names = λ n p e. e; objects = λ p o e. e }

pub GraphGrows-trans : {g h k : Graph} → GraphGrows g h → GraphGrows h k → GraphGrows g k
GraphGrows-trans a b = record {
  names = λ n p e. b.names n p (a.names n p e);
  objects = λ p o e. b.objects p o (a.objects p o e);
}

pub record Resolves (n : String) (g : Graph) (p : ℕ) (h : Graph) : Type 0 where
  pub grows : GraphGrows g h
  pub live : AliasesLive h
  pub found : lookup n h.m_aliases ≡ some p

pub object_create-eq-ok :
    (n : String) (g : Graph) (p : ℕ) (h : Graph)
    → object_create n g ≡ ok (p, h)
    → (p ≡ length g.heap)
      × (h.heap ≡ g.heap ++ (new_schedulable n ∷ []))
      × (h.m_aliases ≡ insert n p g.m_aliases)
unfolding object_create
object_create-eq-ok n g p h e = ground arith

module _ (n : String) (g : Graph) (p : ℕ) (h : Graph) (live : AliasesLive g)
    (created : object_create n g ≡ ok (p, h)) where
  created_kept : (q : ℕ) (o : Schedulable) → Points g q o → Points h q o
  created_kept q o f =
      let (_, heap, _) = object_create-eq-ok n g p h created in
      rw heap (get_elem?-append g.heap (new_schedulable n ∷ []) q f)

  created-IsLive : (q : ℕ) → p ≡ q → IsLive h q
  created-IsLive q e =
      let (at, heap, _) = object_create-eq-ok n g p h created in
      (new_schedulable n, rw (heap, ← e, at) (get_elem?-append_last g.heap (new_schedulable n)))

  created_old : (m : String) (q : ℕ) → lookup m g.m_aliases ≡ some q → IsLive h q
  created_old m q f = let (o, points) = live m q f in (o, created_kept q o points)

  created_lookup :
      (m : String) → lookup m h.m_aliases ≡ (if same_name n m then some p else lookup m g.m_aliases)
  created_lookup m =
      let (_, _, names) = object_create-eq-ok n g p h created in
      rw names (lookup-insert n m p g.m_aliases)

  object_create-Resolves : lookup n g.m_aliases ≡ none → Resolves n g p h
  object_create-Resolves absent = record {
    grows = record {
      names = λ m q f. ground (arith, created_lookup m, eq_iff n m);
      objects = created_kept;
    };
    live = λ m q f. elim (Bool-cases (same_name n m)) [
      | inl same ↦ created-IsLive q (ground (arith, created_lookup m))
      | inr other ↦ created_old m q (ground (arith, created_lookup m))
    ];
    found = ground (arith, created_lookup n, eq_iff n n);
  }

found-eq-ok :
    {g h : Graph} {q p : ℕ}
    → ◌≡◌ {A = Result (ℕ × Graph)} (ok (q, g)) (ok (p, h))
    → (g ≡ h) × (q ≡ p)
found-eq-ok e = (cc, cc)

-- A name resolves to a live object, and only a new name changes the graph.
pub object_get-Resolves :
    (n : String) (g : Graph) (p : ℕ) (h : Graph)
    → AliasesLive g
    → object_get n g ≡ ok (p, h)
    → Resolves n g p h
unfolding object_get
object_get-Resolves n g p h live e = elim (Option-cases (lookup n g.m_aliases)) [
  | inl absent ↦ object_create-Resolves n g p h live (rw (absent, object_get) at e) absent
  | inr (q, f) ↦
      let (same, here) = found-eq-ok (rw (f, object_get) at e) in
      rw (← same, ← here) (record { grows = GraphGrows-refl g; live = live; found = f })
]

-- What keeps the assertion of `object_add` from failing on a new object.
abbrev pub ObjectsBelow : Graph → Type 0
ObjectsBelow g = (q : ℕ) → contains q g.objects ≡ true → q < length g.heap

-- The graph with a placeholder.
abbrev pub created : String → Graph → Graph
created n g = record {
  heap = g.heap ++ (new_schedulable n ∷ []);
  objects = length g.heap ∷ g.objects;
  m_aliases = insert n (length g.heap) g.m_aliases;
  m_loadqueue = g.m_loadqueue ++ (n ∷ []);
}

pub object_create-total :
    (n : String) (g : Graph)
    → ObjectsBelow g
    → lookup n g.m_aliases ≡ none
    → object_create n g ≡ ok (length g.heap, created n g)
unfolding object_create
object_create-total n g below absent = ground (arith, below (length g.heap))

pub created-ObjectsBelow : (n : String) (g : Graph) → ObjectsBelow g → ObjectsBelow (created n g)
created-ObjectsBelow n g below q h =
    ground (arith, below q, length-append_one g.heap (new_schedulable n))
