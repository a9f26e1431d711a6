-- ===== src/Objects/TwoEnded/Adding.antt =====
-- `edge_add`, and the two ends of the edges.
use neo_init_ware.Common.{
  ℕ, ◌≡◌, refl, sym, ◌∙◌, inl, inr, String, some, ok, lookup, Option-cases, length, ok-injective,
  second_is, subst,
}
use neo_init_ware.Objects.Registry.{
  Graph, Edge, modify, object_get, edge_add, add_edge, new_schedulable, add_edge_to,
}
use neo_init_ware.Objects.Resolve.{created, object_create-total, object_get-Resolves}
use neo_init_ware.Objects.Sound.{IsSound, IsSound-AliasesLive, object_get-Gets}
use neo_init_ware.Objects.Edges.{edge_add-Added, edge_add_gives}
use neo_init_ware.Objects.TwoEnded.{
  Leaves, Reaches, IsTwoEnded, Brings, Brings-nothing, Brings-then,
}
use neo_init_ware.Objects.TwoEnded.Changes.{
  append_object-Brings, add_edge-Lengthens, add_edge_to-Lengthens, modify-Brings,
}

Brings-IsTwoEnded :
    (e : Edge) (g h : Graph) (p q : ℕ)
    → Brings (λ r x. (p ≡ r) × (x ≡ e)) (λ r x. (q ≡ r) × (x ≡ e)) g h
    → lookup e.from h.m_aliases ≡ some p
    → lookup e.to h.m_aliases ≡ some q
    → Leaves h p e
    → Reaches h q e
    → IsTwoEnded g
    → IsTwoEnded h
Brings-IsTwoEnded e g h p q b from_is to_is leaves reaches two = record {
  leaving = λ r x l. elim (b.left r x l) [
    | inl old ↦
        let (t, from, to, there) = two.leaving r x old in
        (t, b.names x.from r from, b.names x.to t to, b.reaches t x there)
    | inr (here, new) ↦ rw (new, ← here) (q, from_is, to_is, reaches)
  ];
  reaching = λ r x l. elim (b.reached r x l) [
    | inl old ↦
        let (t, to, from, there) = two.reaching r x old in
        (t, b.names x.to r to, b.names x.from t from, b.leaves t x there)
    | inr (here, new) ↦ rw (new, ← here) (p, to_is, from_is, leaves)
  ];
}

object_get-Brings :
    (Out In : ℕ → Edge → Type 0) (n : String) (p : ℕ) (g h : Graph)
    → IsSound g
    → object_get n g ≡ ok (p, h)
    → Brings Out In g h
unfolding object_get new_schedulable
object_get-Brings Out In n p g h s runs = elim (Option-cases (lookup n g.m_aliases)) [
  | inl absent ↦
      let made : object_get n g ≡ ok (length g.heap, created n g) =
        rw (absent, object_get) (object_create-total n g s.below absent) in
      let resolved =
        object_get-Resolves n g (length g.heap) (created n g) (IsSound-AliasesLive s) made in
      subst (Brings Out In g) (second_is (sym made ∙ runs)) (
        append_object-Brings Out In (new_schedulable n) g (created n g) refl refl refl
          resolved.grows.names)
  | inr (q, found) ↦
      let same : object_get n g ≡ ok (q, g) = rw (found, object_get) in
      subst (Brings Out In g) (second_is (sym same ∙ runs)) (Brings-nothing Out In g)
]

abbrev edge_of : (type : ℕ) (owner from to : String) → Edge
edge_of type owner from to = record { type = type; owner = owner; from = from; to = to }

-- The new edge leaves the object of the one name and reaches that of the other.
record Joins (e : Edge) (g h : Graph) : Type 0 where
  source : ℕ
  target : ℕ
  source_named : lookup e.from h.m_aliases ≡ some source
  target_named : lookup e.to h.m_aliases ≡ some target
  brings : Brings (λ r x. (source ≡ r) × (x ≡ e)) (λ r x. (target ≡ r) × (x ≡ e)) g h

edge_add-Joins :
    (type : ℕ) (owner from to : String) (g h : Graph)
    → IsSound g
    → edge_add type owner from to g ≡ ok h
    → Joins (edge_of type owner from to) g h
edge_add-Joins type owner from to g h s runs =
    let e = edge_of type owner from to in
    let a = object_get-Gets from g s in
    let b = object_get-Gets from a.graph a.sound in
    let c = object_get-Gets to b.graph b.sound in
    let p = b.object in
    let q = c.object in
    let Out : ℕ → Edge → Type 0 = λ r x. (p ≡ r) × (x ≡ e) in
    let In : ℕ → Edge → Type 0 = λ r x. (q ≡ r) × (x ≡ e) in
    let here = modify p (add_edge e) c.graph in
    let looked = Brings-then Out In (object_get-Brings Out In from a.object g a.graph s a.runs) (
      Brings-then Out In (object_get-Brings Out In from p a.graph b.graph a.sound b.runs)
        (object_get-Brings Out In to q b.graph c.graph b.sound c.runs)) in
    let added =
      Brings-then Out In
        (modify-Brings (add_edge e) p c.graph _ _ Out In (add_edge-Lengthens e) (λ x is. (refl, is))
          (λ x none_new. absurd none_new))
        (modify-Brings (add_edge_to e) q here _ _ Out In (add_edge_to-Lengthens e)
          (λ x none_new. absurd none_new) (λ x is. (refl, is))) in
    subst (Joins e g) (ok-injective (sym (edge_add_gives type owner from to g s) ∙ runs)) (record {
      source = p;
      target = q;
      source_named = c.resolves.grows.names from p b.resolves.found;
      target_named = c.resolves.found;
      brings = Brings-then Out In looked added;
    })

-- On a sound map whose edges all stand at both of their ends, in the objects that their names lead
-- to, `edge_add` succeeds and leaves such a map. Every edge that left or reached an object still
-- does, and an edge that leaves or reaches an object that it did not before is the new one.
pub edge_add-IsTwoEnded :
    (type : ℕ) (owner from to : String) (g : Graph)
    → IsSound g
    → IsTwoEnded g
    → (h : Graph) × (edge_add type owner from to g ≡ ok h)
      × IsSound h
      × IsTwoEnded h
      × Brings
          (λ r x. x ≡ record { type = type; owner = owner; from = from; to = to })
          (λ r x. x ≡ record { type = type; owner = owner; from = from; to = to })
          g
          h
edge_add-IsTwoEnded type owner from to g s two =
    let e = edge_of type owner from to in
    let (h, runs, added) = edge_add-Added type owner from to g s in
    let joins = edge_add-Joins type owner from to g h s runs in
    let b = joins.brings in
    let p_is : added.source ≡ joins.source = cc (added.source_named, joins.source_named) in
    let q_is : added.target ≡ joins.target = cc (added.target_named, joins.target_named) in
    let leaves : Leaves h joins.source e =
      subst (λ p. Leaves h p e) p_is
        (record { object = added.from_object; at = added.from_at; owns = added.leaves }) in
    let reaches : Reaches h joins.target e =
      subst (λ p. Reaches h p e) q_is
        (record { object = added.to_object; at = added.to_at; owns = added.reaches }) in
    (
      h,
      runs,
      added.sound,
      Brings-IsTwoEnded e g h joins.source joins.target b joins.source_named joins.target_named
          leaves reaches two,
      record {
        names = b.names;
        leaves = b.leaves;
        reaches = b.reaches;
        left = λ r x l. elim (b.left r x l) [ inl old ↦ inl old | inr (_, new) ↦ inr new ];
        reached = λ r x l. elim (b.reached r x l) [ inl old ↦ inl old | inr (_, new) ↦ inr new ];
      },
    )
