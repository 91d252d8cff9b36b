-- ===== src/Glue/Links.antt =====
-- glue.c, the loops over `next` and `child` that the conversions share, and the counter of groups.
use filtergen.Base.{ℕ}
use filtergen.Filter.Tree.{Filter, null, ptr, Node, Head, leaf, neg, siblings, subgroup}

-- `if (res) res->pos = pos`.
abbrev pub placed : Head → ℕ → Head
placed h p = record h { pos = p }

abbrev pub place_node : Node → ℕ → Node
place_node (leaf l h c) p = leaf l (placed h p) c
place_node (neg s h c) p = neg s (placed h p) c
place_node (siblings s h c) p = siblings s (placed h p) c
place_node (subgroup name s h c) p = subgroup name s (placed h p) c

abbrev pub set_pos : ℕ → Filter → Filter
set_pos p null = null
set_pos p (ptr nd n) = ptr (place_node nd p) n

-- `while (end->next) end = end->next; end->next = x`, from a first node.
unfoldable pub link_next : Filter → Filter → Filter
link_next null x = x
link_next (ptr nd n) x = ptr nd (link_next n x)

-- `while (end->child) end = end->child; end->child = x`, from a first node.
unfoldable pub link_child : Filter → Filter → Filter
link_child null x = x
link_child (ptr (leaf l h c) n) x = ptr (leaf l h (link_child c x)) n
link_child (ptr (neg s h c) n) x = ptr (neg s h (link_child c x)) n
link_child (ptr (siblings s h c) n) x = ptr (siblings s h (link_child c x)) n
link_child (ptr (subgroup name s h c) n) x = ptr (subgroup name s h (link_child c x)) n

-- A conversion that may name a group counts them: the static `ccount`.
abbrev pub Naming : Type 0 → Type 0
Naming A = ℕ → A × ℕ
