-- ===== src/Objects/TwoEnded.antt =====
-- What it means that every edge stands at both of its ends: among the edges that leave the object
-- its `from` leads to, and among those that reach the object its `to` leads to.
pub mod Changes
pub mod Adding
use neo_init_ware.Common.{
  ℕ, zero, suc, ◌≡◌, refl, sym, ◌∙◌, ◌++◌, ◌⊎◌, inl, inr, String, true, false, none, some, ◌==◌,
  Option, List, [], ◌∷◌, ok, lookup, Bool-cases, Option-cases, get_elem?, change, get_elem?-change,
  get_elem?-append, length, if◌then◌else◌, arith, ok-injective, second_is, subst, ==_iff, ap,
}
use neo_init_ware.Objects.Registry.{
  Graph, Edge, Schedulable, Points, modify, object_get, edge_add, add_edge, add_edge_to,
  new_schedulable, no_objects, add_edges_from, add_edges_to,
}
use neo_init_ware.Objects.Resolve.{created, object_create-total, object_get-Resolves}
use neo_init_ware.Objects.Sound.{IsSound, IsSound-AliasesLive, no_objects-IsSound, object_get-Gets}
use neo_init_ware.Objects.Edges.{Owns, modify_hit, modify_miss, edge_add-Added, edge_add_gives}

-- The edge leaves the object, or reaches it.
pub record Leaves (g : Graph) (p : ℕ) (e : Edge) : Type 0 where
  pub object : Schedulable
  pub at : Points g p object
  pub owns : Owns e object.edges

pub record Reaches (g : Graph) (p : ℕ) (e : Edge) : Type 0 where
  pub object : Schedulable
  pub at : Points g p object
  pub owns : Owns e object.edges_to

pub record IsTwoEnded (g : Graph) : Type 0 where
  pub leaving :
      (p : ℕ) (e : Edge)
      → Leaves g p e
      → (q : ℕ) × (lookup e.from g.m_aliases ≡ some p)
        × (lookup e.to g.m_aliases ≡ some q)
        × Reaches g q e
  pub reaching :
      (p : ℕ) (e : Edge)
      → Reaches g p e
      → (q : ℕ) × (lookup e.to g.m_aliases ≡ some p)
        × (lookup e.from g.m_aliases ≡ some q)
        × Leaves g q e

-- A change of the objects that takes no edge and no name away, and brings just the edges that `Out`
-- and `In` tell of, by the object that they leave or reach.
pub record Brings (Out In : ℕ → Edge → Type 0) (g h : Graph) : Type 0 where
  pub names : (n : String) (p : ℕ) → lookup n g.m_aliases ≡ some p → lookup n h.m_aliases ≡ some p
  pub leaves : (p : ℕ) (e : Edge) → Leaves g p e → Leaves h p e
  pub reaches : (p : ℕ) (e : Edge) → Reaches g p e → Reaches h p e
  pub left : (p : ℕ) (e : Edge) → Leaves h p e → Leaves g p e ⊎ Out p e
  pub reached : (p : ℕ) (e : Edge) → Reaches h p e → Reaches g p e ⊎ In p e

module _ (Out In : ℕ → Edge → Type 0) where
  pub Brings-nothing : (g : Graph) → Brings Out In g g
  Brings-nothing g = record {
    names = λ n p is. is;
    leaves = λ p e l. l;
    reaches = λ p e r. r;
    left = λ p e l. inl l;
    reached = λ p e r. inl r;
  }

  pub Brings-then : {g h k : Graph} → Brings Out In g h → Brings Out In h k → Brings Out In g k
  Brings-then x y = record {
    names = λ n p is. y.names n p (x.names n p is);
    leaves = λ p e l. y.leaves p e (x.leaves p e l);
    reaches = λ p e r. y.reaches p e (x.reaches p e r);
    left = λ p e l. elim (y.left p e l) [ inl old ↦ x.left p e old | inr new ↦ inr new ];
    reached = λ p e r. elim (y.reached p e r) [ inl old ↦ x.reached p e old | inr new ↦ inr new ];
  }

pub no_objects-IsTwoEnded : IsTwoEnded no_objects
no_objects-IsTwoEnded = record { leaving = λ p e l. cc (l.at); reaching = λ p e r. cc (r.at) }
