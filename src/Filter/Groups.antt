-- ===== src/Filter/Groups.antt =====
-- filter.c, `filter_nogroup`: turns subgroups into plain siblings, for the back ends without
-- chains. It does not look below a negation.
pub mod Meaning
use filtergen.Filter.Tree.{Filter, null, ptr, leaf, neg, siblings, subgroup}

unfoldable pub filter_nogroup : Filter → Filter
filter_nogroup null = null
filter_nogroup (ptr (leaf l h c) n) = ptr (leaf l h (filter_nogroup c)) (filter_nogroup n)
filter_nogroup (ptr (neg s h c) n) = ptr (neg s h (filter_nogroup c)) (filter_nogroup n)
filter_nogroup (ptr (siblings s h c) n) =
    ptr (siblings (filter_nogroup s) h (filter_nogroup c)) (filter_nogroup n)
filter_nogroup (ptr (subgroup name s h c) n) =
    ptr (siblings (filter_nogroup s) h (filter_nogroup c)) (filter_nogroup n)
