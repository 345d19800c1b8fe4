-- ===== src/Dom/TreeTests.antt =====
-- Tests and concrete instances of the theorems on the links of nodes.
use blinkit.Prelude.{true, ℕ, false, List, [], ◌∷◌, ◌≡◌, refl, none, some, arith}
use blinkit.Prelude.{if◌then◌else◌, ◌==◌}
use blinkit.Dom.Tree.{element_node, child_type_allowed}
use blinkit.Dom.Tree.{
  Ends, Tree, append_child_common, append_child, insert_before, remove_child, contains,
  hierarchy_request_error, remove_from_old_parent,
}
use blinkit.Dom.Tree.Shape.{Represents, put, no_links}
use blinkit.Dom.Tree.Appending.{append_child_common-Represents}
use blinkit.Dom.Tree.Outcomes.{remove_child-Implements}
use blinkit.Dom.Tree.Promised.{Implements, removal, inserting, edited}
use blinkit.Dom.Tree.Forests.{IsForest, insert_before-IsForest}
use blinkit.Dom.Tree.Parser.{parser_append_child, parser_append_child-stuck}
use blinkit.Dom.Tree.Clearing.{remove_children, remove_children_total}
use blinkit.Dom.Tree.Chains.{mem, distinct}
use blinkit.Dom.Tree.Edits.{without, put_before}

abbrev no_ends : Ends
no_ends = record { first = none; last = none }

abbrev bare : Tree
bare = record { links = λ a. no_links; ends = λ a. no_ends }

abbrev no_children : ℕ → List ℕ
no_children a = []

bare-Represents : Represents bare no_children
unfolding mem distinct
bare-Represents = record {
  first = λ q. refl;
  last = λ q. refl;
  chain = λ q. tt;
  is_distinct = λ q. refl;
  complete = λ x q e. absurd (ground arith);
  alone = λ x e. refl;
}

-- The node 1 gets the children 2 and 3.
abbrev one_child : Tree
unfolding append_child_common
one_child = append_child_common 1 2 bare

abbrev two_children : Tree
unfolding append_child_common
two_children = append_child_common 1 3 one_child

abbrev children : ℕ → List ℕ
children = put 1 (2 ∷ 3 ∷ []) (put 1 (2 ∷ []) no_children)

two_children-Represents : Represents two_children children
unfolding append_child_common
two_children-Represents =
    append_child_common-Represents (append_child_common-Represents bare-Represents 1 2 refl) 1 3
      refl

remove_child-Implements_example : Implements (remove_child 1 2 two_children) (removal 1 2 children)
remove_child-Implements_example = remove_child-Implements two_children-Represents 1 2

abbrev rank_of : ℕ → ℕ
rank_of a = if a == 1 then 0 else 1

-- A node cannot become a child of its own child, and 3 comes before 2.
cycle_found : append_child element_node 3 2 1 two_children ≡ hierarchy_request_error
unfolding append_child contains child_type_allowed
cycle_found = refl

moved_before :
    inserting false true 1 2 3 children ≡ edited (put 1 (3 ∷ 2 ∷ []) (λ q. without 3 (children q)))
unfolding mem without put_before
moved_before = refl

bare_forest : IsForest bare
unfolding mem
bare_forest = record {
  kids = no_children;
  rank = λ a. 0;
  represents = bare-Represents;
  ranked = λ q x m. absurd (ground arith);
}

abbrev grown : Tree
unfolding append_child_common
grown = append_child_common 1 2 bare

insert_before-IsForest_example : IsForest grown
unfolding child_type_allowed insert_before append_child contains remove_from_old_parent bare_forest
insert_before-IsForest_example =
    insert_before-IsForest bare_forest element_node 1 1 none 2 grown (omega arith) refl

parser_append_child-stuck_example : parser_append_child 9 4 2 one_child ≡ none
unfolding one_child
parser_append_child-stuck_example = parser_append_child-stuck 9 4 1 2 one_child refl

remove_children_total_example :
    (u : Tree) × (remove_children 2 1 two_children ≡ some u) × Represents u (put 1 [] children)
remove_children_total_example = remove_children_total 1 2 two_children-Represents (omega arith)
