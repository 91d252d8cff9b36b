-- ===== src/Filter/Negation.antt =====
-- filter.c, `__filter_neg_expand`: takes the negation nodes out and marks what they negate.
pub mod Operand
pub mod Meaning
pub mod Limits
use filtergen.Base.{Bool, true, false, not, ◌&&◌}
use filtergen.Base.Outcome.{
  Outcome, ok, fault, negated_conjunction, negated_subgroup, null_pointer, ◌>>=◌, ◌>>◌, stop_if,
}
use filtergen.Filter.Tree.{Filter, null, ptr, Node, Head, leaf, neg, siblings, subgroup}
use filtergen.Filter.Append.{filter_append}

-- `(*f)->negate = neg`.
abbrev pub marked : Head → Bool → Head
marked h negate = record h { negate = negate }

abbrev pub mark_node : Node → Bool → Node
mark_node (leaf l h c) b = leaf l (marked h b) c
mark_node (neg s h c) b = neg s (marked h b) c
mark_node (siblings s h c) b = siblings s (marked h b) c
mark_node (subgroup name s h c) b = subgroup name s (marked h b) c

-- `f->u.siblings && f->u.siblings->next`.
abbrev pub several : Filter → Bool
several (ptr _ (ptr _ _)) = true
several _ = false

-- `(*f)->next = n` and then `(*f)->negate = neg`.
abbrev pub relink : Filter → Filter → Bool → Outcome Filter
relink null next b = fault null_pointer
relink (ptr nd _) next b = ok (ptr (mark_node nd b) next)

unfoldable pub filter_neg_expand : Filter → Bool → Outcome Filter
filter_neg_expand null negate = ok null
filter_neg_expand (ptr (leaf l h c) n) negate = do
  c' ← filter_neg_expand c negate
  n' ← filter_neg_expand n negate
  ok (ptr (leaf l (marked h negate) c') n')
filter_neg_expand (ptr (siblings s h c) n) negate = do
  c' ← filter_neg_expand c negate
  n' ← filter_neg_expand n negate
  stop_if (negate && several s) negated_conjunction
  s' ← filter_neg_expand s negate
  ok (ptr (siblings s' (marked h negate) c') n')
filter_neg_expand (ptr (subgroup name s h c) n) negate = do
  c' ← filter_neg_expand c negate
  n' ← filter_neg_expand n negate
  stop_if negate negated_subgroup
  s' ← filter_neg_expand s negate
  ok (ptr (subgroup name s' (marked h negate) c') n')
filter_neg_expand (ptr (neg s h c) n) negate = do
  c' ← filter_neg_expand c negate
  n' ← filter_neg_expand n negate
  s' ← filter_neg_expand s (not negate)
  f ← filter_append s' c'
  relink f n' (not negate)
