-- ===== src/Dom/Tree.antt =====
-- chromium/third_party/blink/renderer/core/dom/container_node.cpp: the links of the nodes. A node is a
-- number; its links and, of a container, the ends of its children stand in two maps. Documents that
-- adopt nodes, notifications, the pool of the garbage collector, and fragments, whose children are
-- inserted in their place, are left out, and no listener changes the tree meanwhile.
-- A parent is an element or a fragment: `EnsurePreInsertionValidity` of a document fails an assertion.
-- Pseudo elements and the template content of shadow trees are left out.
pub mod Chains
pub mod Moves
pub mod Shape
pub mod Middle
pub mod Removal
pub mod Insertion
pub mod Appending
pub mod Before
pub mod Edits
pub mod Promised
pub mod Outcomes
pub mod Ancestors
pub mod Forests
pub mod Cycles
pub mod Replacing
pub mod Replaced
pub mod Parser
pub mod Clearing
use blinkit.Prelude.{
  ℕ, zero, suc, Bool, true, false, not, ◌||◌, Option, none, some, ◌==◌, if◌then◌else◌,
}

-- `m_parentOrShadowHostNode`, `m_previous` and `m_next`.
pub record Links : Type 0 where
  pub parent : Option ℕ
  pub previous : Option ℕ
  pub next : Option ℕ

-- `m_firstChild` and `m_lastChild`.
pub record Ends : Type 0 where
  pub first : Option ℕ
  pub last : Option ℕ

pub record Tree : Type 0 where
  pub links : ℕ → Links
  pub ends : ℕ → Ends

abbrev pub modify : {A : Type 0} → ℕ → (A → A) → (ℕ → A) → ℕ → A
modify a f m b = if b == a then f (m b) else m b

abbrev pub set_previous : Option ℕ → Links → Links
set_previous o l = record l { previous = o }

abbrev pub set_next : Option ℕ → Links → Links
set_next o l = record l { next = o }

abbrev pub set_first : Option ℕ → Ends → Ends
set_first o e = record e { first = o }

abbrev pub set_last : Option ℕ → Ends → Ends
set_last o e = record e { last = o }

-- A change of the node that a pointer leads to, if it is not null.
abbrev pub modify_at : {A : Type 0} → Option ℕ → (A → A) → (ℕ → A) → ℕ → A
modify_at none f m = m
modify_at (some a) f m = modify a f m

abbrev pub is_none : Option ℕ → Bool
is_none none = true
is_none (some a) = false

abbrev pub same : Option ℕ → Option ℕ → Bool
same none o = is_none o
same (some a) none = false
same (some a) (some b) = b == a

-- `AppendChildCommon`
unfoldable pub append_child_common : ℕ → ℕ → Tree → Tree
append_child_common p child t =
    let last = (t.ends p).last in
    let parented = modify child (λ (l : Links). record l { parent = some p }) t.links in
    record {
      links =
          if is_none last
          then parented
          else modify_at last (set_next (some child)) (modify child (set_previous last) parented);
      ends =
          modify p (set_last (some child))
            (if is_none last then modify p (set_first (some child)) t.ends else t.ends);
    }

-- `InsertBeforeCommon`
unfoldable pub insert_before_common : ℕ → ℕ → ℕ → Tree → Tree
insert_before_common p next child t =
    let previous = (t.links next).previous in
    let linked =
      modify_at previous (set_next (some child))
        (modify next (set_previous (some child)) t.links) in
    record {
      links =
          modify child
            (λ (l : Links). record { parent = some p; previous = previous; next = some next })
            linked;
      ends = if is_none previous then modify p (set_first (some child)) t.ends else t.ends;
    }

-- `RemoveBetween`
unfoldable pub remove_between : ℕ → Option ℕ → Option ℕ → ℕ → Tree → Tree
remove_between p previous next child t =
    let linked =
      modify_at previous (set_next next) (modify_at next (set_previous previous) t.links) in
    let firsts =
      if same (t.ends p).first (some child) then modify p (set_first next) t.ends else t.ends in
    record {
      links =
          modify child (λ (l : Links). record { parent = none; previous = none; next = none })
            linked;
      ends =
          if same (t.ends p).last (some child) then modify p (set_last previous) firsts else firsts;
    }

pub data NodeType : Type 0 where
  element_node attribute_node text_node cdata_section_node processing_instruction_node : NodeType
  comment_node document_node document_type_node document_fragment_node : NodeType

-- `ChildTypeAllowed` of an element, and of a fragment.
unfoldable pub child_type_allowed : NodeType → Bool
child_type_allowed element_node = true
child_type_allowed text_node = true
child_type_allowed comment_node = true
child_type_allowed processing_instruction_node = true
child_type_allowed cdata_section_node = true
child_type_allowed _ = false

-- The exceptions.
pub data Outcome : Type 0 where
  done : Tree → Outcome
  hierarchy_request_error not_found_error : Outcome

-- `contains`, of a node or an ancestor that is at most as many parents away as is given; the quick
-- answers of `IsDescendantOf` before its loop (no children, another scope) are left out.
unfoldable pub contains : ℕ → ℕ → Tree → Option ℕ → Bool
contains depth node t none = false
contains zero node t (some a) = node == a
contains (suc depth) node t (some a) =
    let above = contains depth node t (t.links a).parent in node == a || above

-- `RemoveChild`
unfoldable pub remove_child : ℕ → ℕ → Tree → Outcome
unfolding remove_between
remove_child p child t =
    let l = t.links child in
    if same l.parent (some p)
    then done (remove_between p l.previous l.next child t)
    else not_found_error

-- `CollectChildrenAndRemoveFromOldParent`
unfoldable pub remove_from_old_parent : Option ℕ → ℕ → Tree → Tree
unfolding remove_between
remove_from_old_parent none child t = t
remove_from_old_parent (some p) child t =
    remove_between p (t.links child).previous (t.links child).next child t

-- `AppendChild` of a node of the type, in a tree of the depth.
unfoldable pub append_child : NodeType → ℕ → ℕ → ℕ → Tree → Outcome
unfolding contains append_child_common remove_from_old_parent child_type_allowed
append_child type depth p child t =
    if contains depth child t (some p)
    then hierarchy_request_error
    else if not (child_type_allowed type)
    then hierarchy_request_error
    else done (append_child_common p child (remove_from_old_parent (t.links child).parent child t))

unfoldable pub insert_before_at : NodeType → ℕ → ℕ → Option ℕ → ℕ → Tree → Outcome
unfolding append_child insert_before_common remove_from_old_parent
insert_before_at type depth p none child t = append_child type depth p child t
insert_before_at type depth p (some next) child t =
    done (insert_before_common p next child (remove_from_old_parent (t.links child).parent child t))

-- `InsertBefore`; `EnsurePreInsertionValidity` comes first.
unfoldable pub insert_before : NodeType → ℕ → ℕ → Option ℕ → ℕ → Tree → Outcome
unfolding append_child contains insert_before_at child_type_allowed
insert_before type depth p none child t = append_child type depth p child t
insert_before type depth p (some next) child t =
    if contains depth child t (some p)
    then hierarchy_request_error
    else if not (same (t.links next).parent (some p))
    then not_found_error
    else if not (child_type_allowed type)
    then hierarchy_request_error
    else insert_before_at type depth p (if next == child then (t.links child).next else some next)
        child t
