-- ===== src/Filter/Negation/Operand.antt =====
-- What may be negated, and what `__filter_neg_expand` makes of it.
use filtergen.Base.{Bool, true, false, ◌&&◌, ◌||◌, not, ◌≡◌, refl, arith, ◌∙◌}
use filtergen.Base.Outcome.{ok}
use filtergen.Filter.Tree.{Filter, null, ptr, Node, Leaf, leaf, neg, siblings, subgroup}
use filtergen.Filter.Shape.{IsNegFree}
use filtergen.Filter.Append.{filter_append, append_node}
use filtergen.Filter.Trails.{Trails, field, routes, after}
use filtergen.Filter.Packets.{meant_node, selects, selects_step, selects-join, selects-prefix}
use filtergen.Filter.Negation.{filter_neg_expand, marked, mark_node}

-- What may stand below a negation: one leaf with nothing behind it, alone in its lists of siblings.
abbrev pub IsOperand : Node → Type 0
IsOperand (leaf l h null) = Unit {0}
IsOperand (siblings (ptr nd null) h null) = IsOperand nd
IsOperand _ = ⊥

abbrev pub IsNegatable : Filter → Type 0
IsNegatable null = Unit {0}
IsNegatable (ptr (leaf l h c) n) = IsNegatable c × IsNegatable n
IsNegatable (ptr (neg (ptr nd null) h c) n) = IsOperand nd × IsNegatable c × IsNegatable n
IsNegatable (ptr (neg _ h c) n) = ⊥
IsNegatable (ptr (siblings s h c) n) = IsNegatable s × IsNegatable c × IsNegatable n
IsNegatable (ptr (subgroup name s h c) n) = IsNegatable s × IsNegatable c × IsNegatable n

-- An operand, marked as negated, with a tree behind it.
unfoldable pub attached : Node → Filter → Node
attached (leaf l h null) x = leaf l (marked h true) x
attached (siblings (ptr nd null) h null) x =
    siblings (ptr (attached nd x) null) (marked h true) null
attached nd x = nd

pub neg_expand-operand :
    (nd : Node)
    → IsOperand nd
    → filter_neg_expand (ptr nd null) true ≡ ok (ptr (attached nd null) null)
unfolding filter_neg_expand attached
neg_expand-operand (leaf l h null) o = refl
neg_expand-operand (siblings (ptr nd null) h null) o = rw (neg_expand-operand nd o)
neg_expand-operand _ o = absurd o

append-attached :
    (nd : Node) (x : Filter) → IsOperand nd → append_node (attached nd null) x ≡ ok (attached nd x)
unfolding append_node attached
append-attached (leaf l h null) x o = refl
append-attached (siblings (ptr nd null) h null) x o = rw (append-attached nd x o)
append-attached _ x o = absurd o

pub mark-attached :
    (nd : Node) (x : Filter) → IsOperand nd → mark_node (attached nd x) true ≡ attached nd x
unfolding attached
mark-attached (leaf l h null) x o = refl
mark-attached (siblings (ptr nd null) h null) x o = refl
mark-attached _ x o = absurd o

pub IsNegFree-attached :
    (nd : Node) (x n : Filter)
    → IsOperand nd
    → IsNegFree x
    → IsNegFree n
    → IsNegFree (ptr (attached nd x) n)
unfolding attached
IsNegFree-attached (leaf l h null) x n o hx hn = (hx, hn)
IsNegFree-attached (siblings (ptr nd null) h null) x n o hx hn =
    (IsNegFree-attached nd x null o hx tt, tt, hn)
IsNegFree-attached _ x n o hx hn = absurd o

deny_leaf : (b r : Bool) → (not b && r) ≡ (not (b && true) && r)
deny_leaf true r = refl
deny_leaf false r = refl

deny_siblings : (b r s : Bool) → s ≡ (not b && r) → (s || false) ≡ (not ((b || false) && true) && r)
deny_siblings true r s e = ground arith
deny_siblings false r s e = ground arith

pub selects-attached :
    (v : Leaf → Bool) (nd : Node) (x : Filter) (rest : Trails)
    → IsOperand nd
    → selects v (routes (attached nd x) rest) ≡ (not (meant_node v nd) && selects v (after x rest))
unfolding attached routes meant_node selects_step
selects-attached v (leaf l h null) x rest o =
    selects-prefix v (field l (marked h true)) (after x rest)
    ∙ deny_leaf (v l) (selects v (after x rest))
selects-attached v (siblings (ptr nd null) h null) x rest o =
    selects-join v (routes (attached nd x) rest) Trails.no_trails
    ∙ deny_siblings (meant_node v nd) (selects v (after x rest)) _ (selects-attached v nd x rest o)
selects-attached v _ x rest o = absurd o

pub append-operand :
    (nd : Node) (x : Filter)
    → IsOperand nd
    → filter_append (ptr (attached nd null) null) x ≡ ok (ptr (attached nd x) null)
unfolding filter_append append_node
append-operand nd null o = refl
append-operand nd (ptr x next) o = rw (append-attached nd (ptr x next) o)
