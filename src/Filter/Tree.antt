-- ===== src/Filter/Tree.antt =====
-- filter.h: `struct filter`.
use filtergen.Base.{ℕ, Bool, Option, Text}
use filtergen.Filter.Types.{FilterType, ProtoSpec, AddrSpec, PortSpec}

-- The nodes without filters inside: the tag, and the member of the union `u` that it selects.
-- `other` is a node whose tag no pass knows, such as the YYEOF that `convert` gives on a bad token.
pub data Leaf : Type 0 where
  direction : FilterType → Text → Leaf
  target : FilterType → Leaf
  source dest : AddrSpec → Leaf
  sport dport : PortSpec → Leaf
  icmptype : Text → Leaf
  proto : ProtoSpec → Leaf
  log : Option Text → Leaf
  routingtype : FilterType → Leaf
  oneway : Leaf
  other : FilterType → Leaf

-- `negate` and `pos` of a node; a position is a number that names it.
pub record Head : Type 0 where
  pub negate : Bool
  pub pos : ℕ

-- `struct filter *` is null, or points at a node with its `next`. In a node the fields are the
-- payload, the head and `child`. A node that several parents share stands under each of them.
mutual
  pub data Filter : Type 0 where
    null : Filter
    ptr : Node → Filter → Filter

  pub data Node : Type 0 where
    leaf : Leaf → Head → Filter → Node
    neg : Filter → Head → Filter → Node
    siblings : Filter → Head → Filter → Node
    subgroup : Text → Filter → Head → Filter → Node
