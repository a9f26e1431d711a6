-- ===== src/Objects/TwoEnded/Changes.antt =====
-- What a new object, and a change of an object, do to the edges.
use neo_init_ware.Common.{
  ◌∙◌, ℕ, zero, suc, ◌≡◌, refl, ◌++◌, ◌⊎◌, inl, inr, String, some, ◌==◌, List, [], ◌∷◌, lookup,
  Bool-cases, get_elem?, change, get_elem?-append, subst, ==_iff, ap,
}
use neo_init_ware.Objects.Registry.{Graph, Edge, Schedulable, Points, modify, add_edge, add_edge_to}
use neo_init_ware.Objects.Edges.{Owns, modify_hit, modify_miss}
use neo_init_ware.Objects.TwoEnded.{Brings}

get_elem?-last :
    {A : Type 0} (xs : List A) (x y : A) (p : ℕ)
    → get_elem? (xs ++ (x ∷ [])) p ≡ some y
    → (get_elem? xs p ≡ some y) ⊎ (y ≡ x)
get_elem?-last [] x y zero at = inr (cc)
get_elem?-last [] x y (suc p) at = cc
get_elem?-last (z ∷ xs) x y zero at = inl at
get_elem?-last (z ∷ xs) x y (suc p) at = get_elem?-last xs x y p at

get_elem?-changed :
    {A : Type 0} (f : A → A) (xs : List A) (p q : ℕ) (y : A)
    → get_elem? (change xs p f) q ≡ some y
    → (x : A) × (get_elem? xs q ≡ some x) × ((y ≡ x) ⊎ ((p ≡ q) × (y ≡ f x)))
get_elem?-changed f [] p q y at = cc
get_elem?-changed f (z ∷ xs) zero zero y at = (z, refl, inr (refl, cc))
get_elem?-changed f (z ∷ xs) (suc p) zero y at = (z, refl, inl (cc))
get_elem?-changed f (z ∷ xs) zero (suc q) y at = (y, at, inl refl)
get_elem?-changed f (z ∷ xs) (suc p) (suc q) y at =
    let (x, here, which) = get_elem?-changed f xs p q y at in
    (x, here, elim which [ inl same ↦ inl same | inr (at_it, is) ↦ inr (ap suc at_it, is) ])

-- An object without edges is appended.
pub append_object-Brings :
    (Out In : ℕ → Edge → Type 0) (o : Schedulable) (g h : Graph)
    → o.edges ≡ []
    → o.edges_to ≡ []
    → h.heap ≡ g.heap ++ (o ∷ [])
    → ((m : String) (p : ℕ) → lookup m g.m_aliases ≡ some p → lookup m h.m_aliases ≡ some p)
    → Brings Out In g h
append_object-Brings Out In o g h no_edges no_edges_to heap names = record {
  names = names;
  leaves = λ p e l. record {
    object = l.object;
    at = rw heap (get_elem?-append g.heap (o ∷ []) p l.at);
    owns = l.owns;
  };
  reaches = λ p e r. record {
    object = r.object;
    at = rw heap (get_elem?-append g.heap (o ∷ []) p r.at);
    owns = r.owns;
  };
  left = λ p e l. elim (get_elem?-last g.heap o l.object p (rw heap at l.at)) [
    | inl old ↦ inl (record { object = l.object; at = old; owns = l.owns })
    | inr new ↦ absurd (subst (Owns e) (ap (λ x. x.edges) new ∙ no_edges) l.owns)
  ];
  reached = λ p e r. elim (get_elem?-last g.heap o r.object p (rw heap at r.at)) [
    | inl old ↦ inl (record { object = r.object; at = old; owns = r.owns })
    | inr new ↦ absurd (subst (Owns e) (ap (λ x. x.edges_to) new ∙ no_edges_to) r.owns)
  ];
}

Owns-append : (e : Edge) (es fs : List Edge) → Owns e es → Owns e (es ++ fs)
Owns-append e [] fs owns = absurd owns
Owns-append e (x ∷ es) fs (inl same) = inl same
Owns-append e (x ∷ es) fs (inr later) = inr (Owns-append e es fs later)

Owns-last : (e f : Edge) (es : List Edge) → Owns e (es ++ (f ∷ [])) → Owns e es ⊎ (e ≡ f)
Owns-last e f [] (inl same) = inr same
Owns-last e f [] (inr none_left) = absurd none_left
Owns-last e f (x ∷ es) (inl same) = inl (inl same)
Owns-last e f (x ∷ es) (inr later) = elim (Owns-last e f es later) [
  | inl old ↦ inl (inr old)
  | inr new ↦ inr new
]

-- A change that adds an edge to one of the lists of an object.
pub record Lengthens (Out In : Edge → Type 0) (f : Schedulable → Schedulable) : Type 0 where
  pub keeps : (o : Schedulable) (e : Edge) → Owns e o.edges → Owns e (f o).edges
  pub keeps_to : (o : Schedulable) (e : Edge) → Owns e o.edges_to → Owns e (f o).edges_to
  pub adds : (o : Schedulable) (e : Edge) → Owns e (f o).edges → Owns e o.edges ⊎ Out e
  pub adds_to : (o : Schedulable) (e : Edge) → Owns e (f o).edges_to → Owns e o.edges_to ⊎ In e

pub add_edge-Lengthens : (e : Edge) → Lengthens (λ x. x ≡ e) (λ x. ⊥) (add_edge e)
add_edge-Lengthens e = record {
  keeps = λ o x owns. Owns-append x o.edges (e ∷ []) owns;
  keeps_to = λ o x owns. owns;
  adds = λ o x owns. Owns-last x e o.edges owns;
  adds_to = λ o x owns. inl owns;
}

pub add_edge_to-Lengthens : (e : Edge) → Lengthens (λ x. ⊥) (λ x. x ≡ e) (add_edge_to e)
add_edge_to-Lengthens e = record {
  keeps = λ o x owns. owns;
  keeps_to = λ o x owns. Owns-append x o.edges_to (e ∷ []) owns;
  adds = λ o x owns. inl owns;
  adds_to = λ o x owns. Owns-last x e o.edges_to owns;
}

module _ (f : Schedulable → Schedulable) (p : ℕ) (g : Graph) where
  -- What holds of an object with the change and without it holds of it afterwards.
  after_change :
      (P : Schedulable → Type 0) (q : ℕ) (o : Schedulable)
      → Points g q o
      → P o
      → P (f o)
      → (x : Schedulable) × Points (modify p f g) q x × P x
  after_change P q o at as_it_was as_changed = elim (Bool-cases (p == q)) [
    | inl same ↦ (f o, modify_hit f g p q o at ((==_iff p q).0 same), as_changed)
    | inr other ↦ (o, modify_miss f g p q o at other, as_it_was)
  ]

  pub modify-Brings :
      (O I : Edge → Type 0) (Out In : ℕ → Edge → Type 0)
      → Lengthens O I f
      → ((e : Edge) → O e → Out p e)
      → ((e : Edge) → I e → In p e)
      → Brings Out In g (modify p f g)
  modify-Brings O I Out In l out into = record {
    names = λ n q is. is;
    leaves = λ q e x.
        let (o, at, owns) =
          after_change (λ o. Owns e o.edges) q x.object x.at x.owns (l.keeps x.object e x.owns) in
        record { object = o; at = at; owns = owns };
    reaches = λ q e x.
        let (o, at, owns) =
          after_change (λ o. Owns e o.edges_to) q x.object x.at x.owns
            (l.keeps_to x.object e x.owns) in
        record { object = o; at = at; owns = owns };
    left = λ q e x.
        let (o, at, which) = get_elem?-changed f g.heap p q x.object x.at in
        elim which [
          | inl same ↦ inl (record { object = o; at = at; owns = rw same at x.owns })
          | inr (here, changed) ↦ elim (l.adds o e (rw changed at x.owns)) [
            | inl old ↦ inl (record { object = o; at = at; owns = old })
            | inr new ↦ inr (subst (λ t. Out t e) here (out e new))
          ]
        ];
    reached = λ q e x.
        let (o, at, which) = get_elem?-changed f g.heap p q x.object x.at in
        elim which [
          | inl same ↦ inl (record { object = o; at = at; owns = rw same at x.owns })
          | inr (here, changed) ↦ elim (l.adds_to o e (rw changed at x.owns)) [
            | inl old ↦ inl (record { object = o; at = at; owns = old })
            | inr new ↦ inr (subst (λ t. In t e) here (into e new))
          ]
        ];
  }
