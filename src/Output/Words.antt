-- ===== src/Output/Words.antt =====
-- The words of an edge's type.
use neo_init_ware.Common.{
  ℕ, zero, suc, ◌≡◌, ◌&&◌, ◌||◌, refl, ◌∙◌, subst, ap, String, Bool, true, false, not, some, List,
  [], ◌∷◌, contains_name, same_name, get_elem?, Bool-cases, inl, inr, eq_iff, arith,
}
use neo_init_ware.Objects.{Edge, has_flag}
use neo_init_ware.Output.{type_table, type_words, edge_type_str}

abbrev has_name : String → List (ℕ × String) → Bool
has_name w [] = false
has_name w ((flag, name) ∷ rows) = same_name w name || has_name w rows

abbrev has_row : String → Edge → List (ℕ × String) → Bool
has_row w e [] = false
has_row w e ((flag, name) ∷ rows) = (same_name w name && has_flag flag e) || has_row w e rows

abbrev distinct : List (ℕ × String) → Bool
distinct [] = true
distinct ((flag, name) ∷ rows) = not (has_name name rows) && distinct rows

contains_name-type_words :
    (w : String) (e : Edge) (first : Bool) (rows : List (ℕ × String))
    → same_name w "\\n" ≡ false
    → contains_name w (type_words e first rows) ≡ has_row w e rows
unfolding type_words
contains_name-type_words w e first [] apart = refl
contains_name-type_words w e first ((flag, name) ∷ rows) apart = ground (
  arith,
  contains_name-type_words w e first rows apart,
  contains_name-type_words w e false rows apart,
)

no_row :
    (w : String) (e : Edge) (rows : List (ℕ × String))
    → has_name w rows ≡ false
    → has_row w e rows ≡ false
no_row w e [] absent = refl
no_row w e ((flag, name) ∷ rows) absent = ground (arith, no_row w e rows (ground arith))

named_row :
    (i flag : ℕ) (w : String) (e : Edge) (rows : List (ℕ × String))
    → get_elem? rows i ≡ some (flag, w)
    → distinct rows ≡ true
    → (has_name w rows ≡ true) × (has_row w e rows ≡ has_flag flag e)
named_row i flag w e [] at apart = cc
named_row zero flag w e ((f, name) ∷ rows) at apart =
    let f_eq : f ≡ flag = cc at in
    let w_eq : name ≡ w = cc at in
    let same : same_name w name ≡ true = ground (arith, eq_iff w name) in
    let absent : has_name name rows ≡ false = ground arith in
    let none_later = no_row w e rows (subst (λ x. has_name x rows ≡ false) w_eq absent) in
    let flags : has_flag f e ≡ has_flag flag e = ap (λ x. has_flag x e) f_eq in
    (ground arith, ground arith)
named_row (suc i) flag w e ((f, name) ∷ rows) at apart =
    let (named, here) = named_row i flag w e rows at (ground arith) in
    let other : same_name w name ≡ false = elim (Bool-cases (same_name w name)) [
      | inl same ↦
          let w_eq : w ≡ name = ground (arith, eq_iff w name) in
          let clash : has_name name rows ≡ true = rw (← w_eq) named in absurd (ground arith)
      | inr apart' ↦ apart'
    ] in
    (ground arith, ground arith)

-- The words that the graph of the objects shows for an edge are those of its flags: the word of each
-- row of the table is shown exactly if the edge has the row's flag.
pub edge_type_str_flags :
    (e : Edge) (i flag : ℕ) (w : String)
    → get_elem? type_table i ≡ some (flag, w)
    → contains_name w (edge_type_str e) ≡ has_flag flag e
unfolding edge_type_str
edge_type_str_flags e i flag w at =
    let (named, shown) = named_row i flag w e type_table at refl in
    elim (Bool-cases (same_name w "\\n")) [
      | inl breaks ↦
          let w_eq : w ≡ "\\n" = ground (arith, eq_iff w "\\n") in
          absurd (cc (subst (λ x. has_name x type_table ≡ true) w_eq named))
      | inr apart ↦ contains_name-type_words w e true type_table apart ∙ shown
    ]
