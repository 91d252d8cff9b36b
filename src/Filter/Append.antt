-- ===== src/Filter/Append.antt =====
-- filter.c, `filter_append`: hangs a tree at the end of every path through a node.
-- The C code shares the appended tree between the ends and stops where it meets it again; in the
-- unfolded tree every end gets it once.
pub mod Meaning
use filtergen.Base.Outcome.{Outcome, ok, fault, corrupt_siblings, ◌>>=◌}
use filtergen.Filter.Tree.{Filter, null, ptr, Node, leaf, neg, siblings, subgroup}

-- The loop down the children, and the loop over the siblings at its end.
unfoldable mutual
  pub append_node : Node → Filter → Outcome Node
  append_node (leaf l h c) x = do c' ← append_end c x; ok (leaf l h c')
  append_node (neg s h c) x = do c' ← append_end c x; ok (neg s h c')
  append_node (subgroup name s h c) x = do c' ← append_end c x; ok (subgroup name s h c')
  append_node (siblings s h null) x = do s' ← append_each s x; ok (siblings s' h null)
  append_node (siblings s h (ptr _ _)) x = fault corrupt_siblings

  pub append_end : Filter → Filter → Outcome Filter
  append_end null x = ok x
  append_end (ptr nd next) x = do nd' ← append_node nd x; ok (ptr nd' next)

  pub append_each : Filter → Filter → Outcome Filter
  append_each null x = ok null
  append_each (ptr nd next) x = do
    nd' ← append_node nd x
    next' ← append_each next x
    ok (ptr nd' next')

unfoldable pub filter_append : Filter → Filter → Outcome Filter
filter_append null x = ok null
filter_append (ptr nd next) null = ok (ptr nd next)
filter_append (ptr nd next) (ptr x x_next) = append_end (ptr nd next) (ptr x x_next)
