-- ===== src/Tests/Output.antt =====
-- Printing of a small graph.
use neo_init_ware.Common.{◌≡◌, refl, contains_name, [], ◌∷◌}
use neo_init_ware.Objects.{has_flag}
use neo_init_ware.Objects.EdgeType
use neo_init_ware.Output.{edge_type_str, type_table}
use neo_init_ware.Output.Words.{edge_type_str_flags}
use neo_init_ware.Tests.Samples.{edge_a_b}

two_words : edge_type_str edge_a_b ≡ "Require" ∷ "\\n" ∷ "After" ∷ []
unfolding edge_type_str
two_words = refl

edge_type_str_flags_example :
    contains_name "After" (edge_type_str edge_a_b) ≡ has_flag EdgeType.after edge_a_b
unfolding type_table
edge_type_str_flags_example = edge_type_str_flags edge_a_b 14 EdgeType.after "After" refl
