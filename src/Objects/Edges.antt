-- ===== src/Objects/Edges.antt =====
-- `edge_add`: an edge is recorded at both of its ends.
use neo_init_ware.Common.{
  ℕ, ◌≡◌, refl, ◌++◌, ◌⊎◌, inl, inr, String, false, some, ◌==◌, List, [], ◌∷◌, ok, lookup,
  Bool-cases, get_elem?-change, if◌then◌else◌, arith, >>=-runs, ==_iff,
}
use neo_init_ware.Objects.Registry.{
  Graph, Edge, Schedulable, Points, modify, object_get, edge_add, add_edge, add_edge_to,
}
use neo_init_ware.Objects.Resolve.{IsLive}
use neo_init_ware.Objects.Sound.{IsSound, object_get-Gets, modify-IsSound}

-- The edge stands in the list.
abbrev pub Owns : Edge → List Edge → Type 0
Owns e [] = ⊥
Owns e (x ∷ xs) = (e ≡ x) ⊎ Owns e xs

pub Owns-append_last : (e : Edge) (es : List Edge) → Owns e (es ++ (e ∷ []))
Owns-append_last e [] = inl refl
Owns-append_last e (x ∷ es) = inr (Owns-append_last e es)

-- What `edge_add` leaves behind: both names lead to objects, the edge leaves the one and reaches
-- the other, and no name is lost.
pub record Added (e : Edge) (g h : Graph) : Type 0 where
  pub source : ℕ
  pub target : ℕ
  pub from_object : Schedulable
  pub to_object : Schedulable
  pub source_named : lookup e.from h.m_aliases ≡ some source
  pub target_named : lookup e.to h.m_aliases ≡ some target
  pub from_at : Points h source from_object
  pub to_at : Points h target to_object
  pub leaves : Owns e from_object.edges
  pub reaches : Owns e to_object.edges_to
  pub sound : IsSound h
  pub names : (n : String) (p : ℕ) → lookup n g.m_aliases ≡ some p → lookup n h.m_aliases ≡ some p

module _ (f : Schedulable → Schedulable) (g : Graph) (p q : ℕ) (o : Schedulable)
    (at : Points g q o) where
  pub modify_hit : p ≡ q → Points (modify p f g) q (f o)
  modify_hit same = ground (arith, get_elem?-change f g.heap p q o at)

  pub modify_miss : (p == q) ≡ false → Points (modify p f g) q o
  modify_miss other = ground (arith, get_elem?-change f g.heap p q o at)

keeps_leaving :
    (e : Edge) (q p : ℕ) (g : Graph) (o : Schedulable)
    → Points g p o
    → Owns e o.edges
    → (o' : Schedulable) × Points (modify q (add_edge_to e) g) p o' × Owns e o'.edges
keeps_leaving e q p g o at owns = elim (Bool-cases (q == p)) [
  | inl same ↦ (add_edge_to e o, modify_hit (add_edge_to e) g q p o at ((==_iff q p).0 same), owns)
  | inr other ↦ (o, modify_miss (add_edge_to e) g q p o at other, owns)
]

pub modify-IsLive :
    (f : Schedulable → Schedulable) (p q : ℕ) (g : Graph) → IsLive g q → IsLive (modify p f g) q
modify-IsLive f p q g (o, at) = (if p == q then f o else o, get_elem?-change f g.heap p q o at)

-- The names are looked up one after the other, then the edge is added at both ends.
pub edge_add_gives :
    (type : ℕ) (owner from to : String) (g : Graph) (s : IsSound g)
    → let a = object_get-Gets from g s in
      let b = object_get-Gets from a.graph a.sound in
      let c = object_get-Gets to b.graph b.sound in
      let e : Edge = record { type = type; owner = owner; from = from; to = to } in
      edge_add type owner from to g
      ≡ ok (modify c.object (add_edge_to e) (modify b.object (add_edge e) c.graph))
unfolding edge_add
edge_add_gives type owner from to g s =
    let a = object_get-Gets from g s in
    let b = object_get-Gets from a.graph a.sound in
    let c = object_get-Gets to b.graph b.sound in
    >>=-runs (object_get from g) _ a.runs
      (>>=-runs (object_get from a.graph) _ b.runs (>>=-runs (object_get to b.graph) _ c.runs refl))

-- On a sound map `edge_add` succeeds. Both names lead to objects afterwards, the edge is among those
-- that leave the one and among those that reach the other, the map stays sound, and every name that
-- led to an object still leads to it.
pub edge_add-Added :
    (type : ℕ) (owner from to : String) (g : Graph)
    → IsSound g
    → (h : Graph) × (edge_add type owner from to g ≡ ok h)
      × Added (record { type = type; owner = owner; from = from; to = to }) g h
edge_add-Added type owner from to g s =
    let a = object_get-Gets from g s in
    let b = object_get-Gets from a.graph a.sound in
    let c = object_get-Gets to b.graph b.sound in
    let e : Edge = record { type = type; owner = owner; from = from; to = to } in
    let p = b.object in
    let q = c.object in
    let start = c.resolves.grows.names from p b.resolves.found in
    let (o, o_at) = c.resolves.live from p start in
    let h = modify p (add_edge e) c.graph in
    let (x, x_at, x_owns) =
      keeps_leaving e q p h (add_edge e o) (modify_hit (add_edge e) c.graph p p o o_at refl)
        (Owns-append_last e o.edges) in
    let (y, y_at) =
      modify-IsLive (add_edge e) p q c.graph (c.resolves.live to q c.resolves.found) in
    let keeps = λ (n : String) (m : ℕ) (was : lookup n g.m_aliases ≡ some m).
      c.resolves.grows.names n m (b.resolves.grows.names n m (a.resolves.grows.names n m was)) in
    (
      modify q (add_edge_to e) h,
      edge_add_gives type owner from to g s,
      record {
        source = p;
        target = q;
        from_object = x;
        to_object = add_edge_to e y;
        source_named = start;
        target_named = c.resolves.found;
        from_at = x_at;
        to_at = modify_hit (add_edge_to e) h q q y y_at refl;
        leaves = x_owns;
        reaches = Owns-append_last e y.edges_to;
        sound =
            modify-IsSound (add_edge_to e) (λ z n has. has) q h
              (modify-IsSound (add_edge e) (λ z n has. has) p c.graph c.sound);
        names = keeps;
      },
    )
