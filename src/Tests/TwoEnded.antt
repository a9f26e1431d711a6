-- ===== src/Tests/TwoEnded.antt =====
-- The ends of edges, on small graphs.
use neo_init_ware.Common.{ℕ, zero, suc, ◌≡◌, refl, subst, some, ok, inl, inr, ap, sym}
use neo_init_ware.Objects.{Graph, Edge, edge_add}
use neo_init_ware.Objects.Edges.{Owns}
use neo_init_ware.Objects.TwoEnded.{Leaves, Reaches, IsTwoEnded, Brings}
use neo_init_ware.Objects.TwoEnded.Adding.{edge_add-IsTwoEnded}
use neo_init_ware.Objects.EdgeType
use neo_init_ware.Objects.Sound.{IsSound}
use neo_init_ware.Tests.Samples.{pair, pair-IsSound, edge_a_b}

some_injective : {A : Type 0} {a b : A} → some a ≡ some b → a ≡ b
some_injective e = cc

-- The edge leaves a only, and reaches b only.
edge_of_a : (p : ℕ) (x : Edge) → Leaves pair p x → (p ≡ 1) × (x ≡ edge_a_b)
edge_of_a zero x l = absurd (subst (Owns x) (ap (λ o. o.edges) (sym (some_injective l.at))) l.owns)
edge_of_a (suc zero) x l =
    elim (subst (Owns x) (ap (λ o. o.edges) (sym (some_injective l.at))) l.owns) [
      | inl this ↦ (refl, this)
      | inr nothing ↦ absurd nothing
    ]
edge_of_a (suc (suc p)) x l = cc (l.at)

edge_of_b : (p : ℕ) (x : Edge) → Reaches pair p x → (p ≡ 0) × (x ≡ edge_a_b)
edge_of_b zero x l =
    elim (subst (Owns x) (ap (λ o. o.edges_to) (sym (some_injective l.at))) l.owns) [
      | inl this ↦ (refl, this)
      | inr nothing ↦ absurd nothing
    ]
edge_of_b (suc zero) x l =
    absurd (subst (Owns x) (ap (λ o. o.edges_to) (sym (some_injective l.at))) l.owns)
edge_of_b (suc (suc p)) x l = cc (l.at)

pair-IsTwoEnded : IsTwoEnded pair
pair-IsTwoEnded = record {
  leaving = λ p e l.
      let (p_is, e_is) = edge_of_a p e l in
      rw (p_is, e_is) (0, refl, refl, record { object = _; at = refl; owns = inl refl });
  reaching = λ p e r.
      let (p_is, e_is) = edge_of_b p e r in
      rw (p_is, e_is) (1, refl, refl, record { object = _; at = refl; owns = inl refl });
}

-- b orders itself before a new object c.
edge_add-IsTwoEnded_example :
    (h : Graph) × (edge_add EdgeType.before "b" "b" "c" pair ≡ ok h)
    × IsSound h
    × IsTwoEnded h
    × Brings
        (λ r x. x ≡ record { type = EdgeType.before; owner = "b"; from = "b"; to = "c" })
        (λ r x. x ≡ record { type = EdgeType.before; owner = "b"; from = "b"; to = "c" })
        pair
        h
edge_add-IsTwoEnded_example =
    edge_add-IsTwoEnded EdgeType.before "b" "b" "c" pair pair-IsSound pair-IsTwoEnded
