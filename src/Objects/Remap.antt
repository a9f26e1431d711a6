-- ===== src/Objects/Remap.antt =====
-- `object_remap_unowned_edges` loses no edge and makes none.
use mathlib.Core.List.{Perm}
use mathlib.Core.List.Perm
use neo_init_ware.Common.{◌⊎◌, ℕ, ◌≡◌, ◌==◌, true, false, List, ◌++◌, contains_name}
use neo_init_ware.Objects.Registry.{Graph, Edge, Schedulable, Points}
use neo_init_ware.Objects.Edges.{Owns}

-- What becomes of the two objects and of the others.
pub record Remapped (obj newobj : ℕ) (old new : Schedulable) (g h : Graph) : Type 0 where
  pub kept : Schedulable
  pub grown : Schedulable
  pub kept_at : Points h obj kept
  pub grown_at : Points h newobj grown
  pub same_edges : Perm (kept.edges ++ grown.edges) (old.edges ++ new.edges)
  pub same_edges_to : Perm (kept.edges_to ++ grown.edges_to) (old.edges_to ++ new.edges_to)
  pub keeps_owned : (e : Edge) → Owns e kept.edges → contains_name e.owner old.aliases ≡ true
  pub keeps_owned_to : (e : Edge) → Owns e kept.edges_to → contains_name e.owner old.aliases ≡ true
  pub stays :
      (e : Edge) → Owns e old.edges → contains_name e.owner old.aliases ≡ true → Owns e kept.edges
  pub stays_to :
      (e : Edge)
      → Owns e old.edges_to
      → contains_name e.owner old.aliases ≡ true
      → Owns e kept.edges_to
  pub moves :
      (e : Edge)
      → Owns e grown.edges
      → Owns e new.edges ⊎ (Owns e old.edges × (contains_name e.owner old.aliases ≡ false))
  pub moves_to :
      (e : Edge)
      → Owns e grown.edges_to
      → Owns e new.edges_to ⊎ (Owns e old.edges_to × (contains_name e.owner old.aliases ≡ false))
  pub others :
      (q : ℕ) (o : Schedulable)
      → (obj == q) ≡ false
      → (newobj == q) ≡ false
      → Points g q o
      → Points h q o
  pub names : h.m_aliases ≡ g.m_aliases
