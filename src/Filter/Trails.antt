-- ===== src/Filter/Trails.antt =====
-- What a tree stands for: the cross product that filter.c and gen.c walk, as the list of all the
-- paths through it in order.
use filtergen.Base.{Text}
use filtergen.Filter.Tree.{Filter, null, ptr, Node, Leaf, Head, leaf, neg, siblings, subgroup}

-- A path is a list of steps: a leaf, or a subgroup with the paths of its own rules.
mutual
  pub data Step : Type 0 where
    field : Leaf → Head → Step
    enter : Text → Head → Trails → Step

  pub data Trail : Type 0 where
    done : Trail
    step : Step → Trail → Trail

  pub data Trails : Type 0 where
    no_trails : Trails
    also : Trail → Trails → Trails

-- All of the first, then all of the second.
unfoldable pub join : Trails → Trails → Trails
join no_trails ts = ts
join (also t ss) ts = also t (join ss ts)

-- One more step in front of each path.
unfoldable pub prefix : Step → Trails → Trails
prefix s no_trails = no_trails
prefix s (also t ts) = also (step s t) (prefix s ts)

abbrev pub only_done : Trails
only_done = also done no_trails

-- `rest` stands for what follows the end of the chain of children. A negation has no paths: it is
-- taken out before.
unfoldable mutual
  pub routes : Node → Trails → Trails
  routes (leaf l h c) rest = prefix (field l h) (after c rest)
  routes (neg s h c) rest = no_trails
  routes (siblings s h c) rest = across s (after c rest)
  routes (subgroup name s h c) rest = prefix (enter name h (across s only_done)) (after c rest)

  pub after : Filter → Trails → Trails
  after null rest = rest
  after (ptr nd next) rest = routes nd rest

  pub across : Filter → Trails → Trails
  across null rest = no_trails
  across (ptr nd next) rest = join (routes nd rest) (across next rest)

-- The paths of a list of rules.
unfoldable pub trails : Filter → Trails
unfolding routes
trails f = across f only_done
