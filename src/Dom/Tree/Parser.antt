-- ===== src/Dom/Tree/Parser.antt =====
-- `ParserAppendChild` and `ParserRemoveChild` of a build without assertions, where
-- `CheckParserAcceptChild` accepts the child. A loop that runs out of fuel gives none.
use blinkit.Prelude.{ℕ, zero, suc, ◌≡◌, refl, ap, ◌∙◌, Option, none, some}
use blinkit.Dom.Tree.{Tree, append_child_common}

-- `ParserRemoveChild`: only an assertion.
abbrev pub parser_remove_child : ℕ → ℕ → Tree → Tree
parser_remove_child p child t = t

-- `while (ContainerNode *parent = newChild->parentNode())`
unfoldable pub leave_parents : ℕ → Option ℕ → ℕ → Tree → Option Tree
leave_parents fuel none child t = some t
leave_parents zero (some p) child t = none
leave_parents (suc fuel) (some p) child t =
    let u = parser_remove_child p child t in leave_parents fuel (u.links child).parent child u

abbrev append_after : ℕ → ℕ → Option Tree → Option Tree
append_after p child none = none
append_after p child (some t) = some (append_child_common p child t)

-- `ParserAppendChild`
unfoldable pub parser_append_child : ℕ → ℕ → ℕ → Tree → Option Tree
unfolding leave_parents append_child_common
parser_append_child fuel p child t =
    append_after p child (leave_parents fuel (t.links child).parent child t)

leave_parents-stuck :
    (fuel q c : ℕ) (t : Tree) → (t.links c).parent ≡ some q → leave_parents fuel (some q) c t ≡ none
unfolding leave_parents
leave_parents-stuck zero q c t e = refl
leave_parents-stuck (suc fuel) q c t e =
    ap (λ o. leave_parents fuel o c t) e ∙ leave_parents-stuck fuel q c t e

-- The parser's append of a node that has a parent comes back on no fuel: its loop never ends.
pub parser_append_child-stuck :
    (fuel p q c : ℕ) (t : Tree)
    → (t.links c).parent ≡ some q
    → parser_append_child fuel p c t ≡ none
unfolding parser_append_child
parser_append_child-stuck fuel p q c t e =
    ap (append_after p c) (ap (λ o. leave_parents fuel o c t) e ∙ leave_parents-stuck fuel q c t e)
