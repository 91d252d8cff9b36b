-- ===== src/Filter/Shape.antt =====
-- The shapes of trees between the passes of filter.c.
use filtergen.Filter.Tree.{Filter, null, ptr, Node, leaf, neg, siblings, subgroup}

-- No negation node anywhere: what `__filter_neg_expand` leaves.
abbrev pub IsNegFree : Filter → Type 0
IsNegFree null = Unit {0}
IsNegFree (ptr (leaf l h c) n) = IsNegFree c × IsNegFree n
IsNegFree (ptr (neg s h c) n) = ⊥
IsNegFree (ptr (siblings s h c) n) = IsNegFree s × IsNegFree c × IsNegFree n
IsNegFree (ptr (subgroup name s h c) n) = IsNegFree s × IsNegFree c × IsNegFree n

-- Nothing follows a list of siblings: "there's only one way to follow it" (gen.c).
abbrev pub IsUnrolled : Filter → Type 0
IsUnrolled null = Unit {0}
IsUnrolled (ptr (leaf l h c) n) = IsUnrolled c × IsUnrolled n
IsUnrolled (ptr (neg s h c) n) = ⊥
IsUnrolled (ptr (siblings s h null) n) = IsUnrolled s × IsUnrolled n
IsUnrolled (ptr (siblings s h (ptr _ _)) n) = ⊥
IsUnrolled (ptr (subgroup name s h c) n) = IsUnrolled s × IsUnrolled c × IsUnrolled n

abbrev pub IsUnrolledNode : Node → Type 0
IsUnrolledNode nd = IsUnrolled (ptr nd null)

-- A list is unrolled when its first node and the rest are.
pub IsUnrolled-ptr :
    (nd : Node) (n : Filter) → IsUnrolled (ptr nd n) → IsUnrolledNode nd × IsUnrolled n
IsUnrolled-ptr (leaf l h c) n (uc, un) = ((uc, tt), un)
IsUnrolled-ptr (neg s h c) n u = absurd u
IsUnrolled-ptr (siblings s h null) n (us, un) = ((us, tt), un)
IsUnrolled-ptr (siblings s h (ptr _ _)) n u = absurd u
IsUnrolled-ptr (subgroup name s h c) n (us, uc, un) = ((us, uc, tt), un)

pub IsUnrolled-of_parts :
    (nd : Node) (n : Filter) → IsUnrolledNode nd → IsUnrolled n → IsUnrolled (ptr nd n)
IsUnrolled-of_parts (leaf l h c) n u un = (u.0, un)
IsUnrolled-of_parts (neg s h c) n u un = absurd u
IsUnrolled-of_parts (siblings s h null) n u un = (u.0, un)
IsUnrolled-of_parts (siblings s h (ptr _ _)) n u un = absurd u
IsUnrolled-of_parts (subgroup name s h c) n u un = (u.0, u.1, un)
