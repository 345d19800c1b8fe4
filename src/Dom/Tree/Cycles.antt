-- ===== src/Dom/Tree/Cycles.antt =====
-- `AppendChild`, `InsertBefore` and `ReplaceChild`, with the errors described by the lists of children.
use blinkit.Prelude.{ℕ, Bool, true, false, List, ◌≡◌}
use blinkit.Dom.Tree.{
  Tree, NodeType, element_node, text_node, comment_node, processing_instruction_node,
  cdata_section_node,
}
use blinkit.Dom.Tree.Chains.{mem}

-- A node is the other one, or stands below it.
pub data Descends (kids : ℕ → List ℕ) (c : ℕ) : ℕ → Type 0 where
  itself : Descends kids c c
  below : {q x : ℕ} → mem x (kids q) ≡ true → Descends kids c q → Descends kids c x

-- The types of the children of elements and fragments.
pub data IsContent : NodeType → Type 0 where
  is_element : IsContent element_node
  is_text : IsContent text_node
  is_comment : IsContent comment_node
  is_instruction : IsContent processing_instruction_node
  is_cdata : IsContent cdata_section_node

abbrev pub Decides : Bool → Type 0 → Type 0
Decides true P = P
Decides false P = P → ⊥
