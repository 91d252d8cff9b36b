-- ===== src/Filter/Targets.antt =====
-- filter.c, `__filter_targets_to_end` and `filter_unroll`.
pub mod Meaning
pub mod Steady
use filtergen.Base.{Bool, true, false, ◌&&◌, if◌then◌else◌}
use filtergen.Base.Outcome.{Outcome, ok, ◌>>=◌}
use filtergen.Filter.Tree.{Filter, null, ptr, Leaf, target, leaf, neg, siblings, subgroup}
use filtergen.Filter.Append.{filter_append}
use filtergen.Filter.Negation.{filter_neg_expand}
use filtergen.Filter.Unroll.{filter_unroll_tree}

abbrev pub is_target : Leaf → Bool
is_target (target _) = true
is_target _ = false

abbrev pub not_null : Filter → Bool
not_null null = false
not_null (ptr _ _) = true

-- A target with something behind it is cut off and appended, and its child takes its place in the
-- list: what stood next to the target goes along with it.
unfoldable pub filter_targets_to_end : Filter → Outcome Filter
filter_targets_to_end null = ok null
filter_targets_to_end (ptr (leaf l h c) n) =
    let further = do
      c' ← filter_targets_to_end c
      n' ← filter_targets_to_end n
      ok (ptr (leaf l h c') n')
    in if is_target l && not_null c then filter_append c (ptr (leaf l h null) n) else further
filter_targets_to_end (ptr (siblings s h c) n) = do
  c' ← filter_targets_to_end c
  n' ← filter_targets_to_end n
  ok (ptr (siblings s h c') n')
filter_targets_to_end (ptr (subgroup name s h c) n) = do
  c' ← filter_targets_to_end c
  n' ← filter_targets_to_end n
  ok (ptr (subgroup name s h c') n')
filter_targets_to_end (ptr (neg s h c) n) = do
  c' ← filter_targets_to_end c
  n' ← filter_targets_to_end n
  ok (ptr (neg s h c') n')

unfoldable pub filter_unroll : Filter → Outcome Filter
filter_unroll f = do
  expanded ← filter_neg_expand f false
  unrolled ← filter_unroll_tree expanded
  filter_targets_to_end unrolled
