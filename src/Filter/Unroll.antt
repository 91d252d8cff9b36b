-- ===== src/Filter/Unroll.antt =====
-- filter.c, `__filter_unroll`: pushes what follows a list of siblings down to the end of each.
-- The C loop unrolls the rest of the list again at each sibling; here it is unrolled once.
pub mod Meaning
use filtergen.Base.Outcome.{Outcome, ok, fault, unexpanded_negation, ◌>>=◌}
use filtergen.Filter.Tree.{Filter, null, ptr, Node, leaf, neg, siblings, subgroup}
use filtergen.Filter.Append.{filter_append, append_each}

-- `filter_append(s, c)` for each sibling `s` that the loop has unrolled.
unfoldable pub append_siblings : Filter → Filter → Outcome Filter
append_siblings s null = ok s
append_siblings s (ptr nd next) = append_each s (ptr nd next)

unfoldable pub filter_unroll_tree : Filter → Outcome Filter
unfolding append_siblings
filter_unroll_tree null = ok null
filter_unroll_tree (ptr (leaf l h c) n) = do
  c' ← filter_unroll_tree c
  n' ← filter_unroll_tree n
  ok (ptr (leaf l h c') n')
filter_unroll_tree (ptr (siblings s h c) n) = do
  c' ← filter_unroll_tree c
  s' ← filter_unroll_tree s
  s'' ← append_siblings s' c'
  n' ← filter_unroll_tree n
  ok (ptr (siblings s'' h null) n')
filter_unroll_tree (ptr (subgroup name s h c) n) = do
  c' ← filter_unroll_tree c
  s' ← filter_unroll_tree s
  n' ← filter_unroll_tree n
  ok (ptr (subgroup name s' h c') n')
filter_unroll_tree (ptr (neg s h c) n) = do _ ← filter_unroll_tree c; fault unexpanded_negation
