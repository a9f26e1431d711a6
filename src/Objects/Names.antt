-- ===== src/Objects/Names.antt =====
-- The names of a loaded object: what the loops of `object_load` over the aliases do to a sound map.
use neo_init_ware.Common.{
  ℕ, ◌≡◌, refl, ◌∙◌, inl, inr, String, none, some, ◌==◌, List, [], ◌∷◌, lookup, lookup-insert,
  lookup-erase_name, erase_name, length, Bool-cases, Option-cases, get_elem?, get_elem?-change,
  length-change, if◌then◌else◌, arith, eq_iff, contains_name, same_name,
}
use neo_init_ware.Objects.Registry.{
  Graph, modify, keep_owned, take_unowned, object_remap_unowned_edges, unbind_name, unbind_names,
  bind_name, bind_names, add_name,
}
use neo_init_ware.Objects.Resolve.{IsLive}
use neo_init_ware.Objects.Sound.{IsSound, Named, modify-IsSound}

pub remap-IsSound : (p q : ℕ) (g : Graph) → IsSound g → IsSound (object_remap_unowned_edges p q g)
unfolding object_remap_unowned_edges
remap-IsSound p q g s = elim (Option-cases (get_elem? g.heap p)) [
  | inl absent ↦ rw (absent, object_remap_unowned_edges) s
  | inr (old, at) ↦
      rw (at, object_remap_unowned_edges)
        (modify-IsSound (take_unowned old) (λ o n h. h) q (modify p keep_owned g)
          (modify-IsSound keep_owned (λ o n h. h) p g s))
]

pub erase_name-IsSound :
    (n : String) (g : Graph)
    → IsSound g
    → IsSound (record g { m_aliases = erase_name n g.m_aliases })
erase_name-IsSound n g s = record {
  named = λ m q e. step m q (s.named m q (ground (arith, lookup-erase_name n m g.m_aliases)));
  below = s.below;
}
  where
    step :
        (m : String) (q : ℕ)
        → Named g m q
        → Named (record g { m_aliases = erase_name n g.m_aliases }) m q
    step m q x = record { object = x.object; at = x.at; has_name = x.has_name }

pub unbind_name-IsSound : (n : String) (p : ℕ) (g : Graph) → IsSound g → IsSound (unbind_name n p g)
unfolding unbind_name
unbind_name-IsSound n p g s = elim (Option-cases (lookup n g.m_aliases)) [
  | inl absent ↦ rw (absent, unbind_name) s
  | inr (old, at) ↦ rw (at, unbind_name) (erase_name-IsSound n _ (remap-IsSound old p g s))
]

pub unbind_names-IsSound :
    (ns : List String) (p : ℕ) (g : Graph) → IsSound g → IsSound (unbind_names ns p g)
unfolding unbind_names
unbind_names-IsSound [] p g s = s
unbind_names-IsSound (n ∷ ns) p g s =
    unbind_names-IsSound ns p (unbind_name n p g) (unbind_name-IsSound n p g s)

pub bind_name-IsSound :
    (n : String) (p : ℕ) (g : Graph) → IsLive g p → IsSound g → IsSound (bind_name n p g)
bind_name-IsSound n p g (o, at) s = record { named = named'; below = was.below }
  where
    was : IsSound (modify p (add_name n) g)
    was = modify-IsSound (add_name n) (λ x m h. ground arith) p g s

    new : (m : String) (q : ℕ) → n ≡ m → p ≡ q → Named (bind_name n p g) m q
    new m q same here =
        rw (← same, ← here)
          (record {
            object = if p == p then add_name n o else o;
            at = get_elem?-change (add_name n) g.heap p p o at;
            has_name = ground (arith, eq_iff n n);
          })

    named' :
        (m : String) (q : ℕ)
        → lookup m (bind_name n p g).m_aliases ≡ some q
        → Named (bind_name n p g) m q
    named' m q e = elim (Bool-cases (same_name n m)) [
      | inl same ↦ new m q ((eq_iff n m).0 same) (ground (arith, lookup-insert n m p g.m_aliases))
      | inr other ↦
          let x = was.named m q (ground (arith, lookup-insert n m p g.m_aliases)) in
          record { object = x.object; at = x.at; has_name = x.has_name }
    ]

pub bind_name-IsLive : (n : String) (p : ℕ) (g : Graph) → IsLive g p → IsLive (bind_name n p g) p
bind_name-IsLive n p g (o, at) =
    (if p == p then add_name n o else o, get_elem?-change (add_name n) g.heap p p o at)

pub bind_names-IsSound :
    (ns : List String) (p : ℕ) (g : Graph) → IsLive g p → IsSound g → IsSound (bind_names ns p g)
unfolding bind_names
bind_names-IsSound [] p g live s = s
bind_names-IsSound (n ∷ ns) p g live s =
    bind_names-IsSound ns p (bind_name n p g) (bind_name-IsLive n p g live)
      (bind_name-IsSound n p g live s)

-- The loop over the names binds them, and no other name.
pub lookup-bind_names :
    (m : String) (ns : List String) (p : ℕ) (g : Graph)
    → lookup m (bind_names ns p g).m_aliases
      ≡ (if contains_name m ns then some p else lookup m g.m_aliases)
unfolding bind_names
lookup-bind_names m [] p g = refl
lookup-bind_names m (n ∷ ns) p g = ground (
  arith,
  lookup-bind_names m ns p (bind_name n p g),
  lookup-insert n m p g.m_aliases,
  eq_iff n m,
  eq_iff m n,
)

pub remap-m_aliases :
    (p q : ℕ) (g : Graph) → (object_remap_unowned_edges p q g).m_aliases ≡ g.m_aliases
unfolding object_remap_unowned_edges
remap-m_aliases p q g = elim (Option-cases (get_elem? g.heap p)) [
  | inl absent ↦ rw (absent, object_remap_unowned_edges)
  | inr (old, at) ↦ rw (at, object_remap_unowned_edges)
]

pub remap-length :
    (p q : ℕ) (g : Graph) → length (object_remap_unowned_edges p q g).heap ≡ length g.heap
unfolding object_remap_unowned_edges
remap-length p q g = elim (Option-cases (get_elem? g.heap p)) [
  | inl absent ↦ rw (absent, object_remap_unowned_edges)
  | inr (old, at) ↦
      rw (at, object_remap_unowned_edges)
        (length-change (take_unowned old) _ q ∙ length-change keep_owned g.heap p)
]

pub lookup-unbind_name :
    (m n : String) (p : ℕ) (g : Graph)
    → lookup m (unbind_name n p g).m_aliases
      ≡ (if same_name n m then none else lookup m g.m_aliases)
unfolding unbind_name
lookup-unbind_name m n p g = elim (Option-cases (lookup n g.m_aliases)) [
  | inl absent ↦ rw (absent, unbind_name) (ground (arith, eq_iff n m))
  | inr (old, at) ↦
      rw (at, unbind_name, remap-m_aliases old p g) (lookup-erase_name n m g.m_aliases)
]

pub lookup-unbind_names :
    (m : String) (ns : List String) (p : ℕ) (g : Graph)
    → lookup m (unbind_names ns p g).m_aliases
      ≡ (if contains_name m ns then none else lookup m g.m_aliases)
unfolding unbind_names
lookup-unbind_names m [] p g = refl
lookup-unbind_names m (n ∷ ns) p g = ground (
  arith,
  lookup-unbind_names m ns p (unbind_name n p g),
  lookup-unbind_name m n p g,
  eq_iff n m,
  eq_iff m n,
)

pub unbind_name-length :
    (n : String) (p : ℕ) (g : Graph) → length (unbind_name n p g).heap ≡ length g.heap
unfolding unbind_name
unbind_name-length n p g = elim (Option-cases (lookup n g.m_aliases)) [
  | inl absent ↦ rw (absent, unbind_name)
  | inr (old, at) ↦ rw (at, unbind_name) (remap-length old p g)
]

pub unbind_names-length :
    (ns : List String) (p : ℕ) (g : Graph) → length (unbind_names ns p g).heap ≡ length g.heap
unfolding unbind_names
unbind_names-length [] p g = refl
unbind_names-length (n ∷ ns) p g =
    unbind_names-length ns p (unbind_name n p g) ∙ unbind_name-length n p g
