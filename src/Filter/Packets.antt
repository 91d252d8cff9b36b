-- ===== src/Filter/Packets.antt =====
-- Which packets a filter selects: the meaning of the parse tree that the README and
-- filter_syntax(5) describe. What one leaf selects is a parameter, since it is left to the kernel.
use filtergen.Base.{Bool, true, false, ◌&&◌, ◌||◌, not, if◌then◌else◌, ◌≡◌, refl, arith}
use filtergen.Filter.Tree.{Filter, null, ptr, Node, Leaf, leaf, neg, siblings, subgroup}
use filtergen.Filter.Trails.{
  Step, Trail, Trails, field, enter, done, step, no_trails, also, join, prefix,
}

-- What the tree means as it was parsed: `neg` negates the node below it, siblings are
-- alternatives, a child adds a condition. The `negate` marks do not count.
unfoldable mutual
  pub meant_node : (Leaf → Bool) → Node → Bool
  meant_node v (leaf l h c) = v l && meant_chain v c
  meant_node v (neg s h c) = not (meant_chain v s) && meant_chain v c
  meant_node v (siblings s h c) = meant v s && meant_chain v c
  meant_node v (subgroup name s h c) = meant v s && meant_chain v c

  pub meant_chain : (Leaf → Bool) → Filter → Bool
  meant_chain v null = true
  meant_chain v (ptr nd next) = meant_node v nd

  pub meant : (Leaf → Bool) → Filter → Bool
  meant v null = false
  meant v (ptr nd next) = meant_node v nd || meant v next

-- What a path selects once negations are marks on its leaves.
unfoldable mutual
  pub selects_step : (Leaf → Bool) → Step → Bool
  selects_step v (field l h) = if h.negate then not (v l) else v l
  selects_step v (enter name h inside) = selects v inside

  pub selects_trail : (Leaf → Bool) → Trail → Bool
  selects_trail v done = true
  selects_trail v (step s t) = selects_step v s && selects_trail v t

  pub selects : (Leaf → Bool) → Trails → Bool
  selects v no_trails = false
  selects v (also t ts) = selects_trail v t || selects v ts

and_false : (b : Bool) → false ≡ (b && false)
and_false true = refl
and_false false = refl

pub selects-join :
    (v : Leaf → Bool) (s t : Trails) → selects v (join s t) ≡ (selects v s || selects v t)
unfolding selects join
selects-join v no_trails t = refl
selects-join v (also x s) t = ground (arith, selects-join v s t)

pub selects-prefix :
    (v : Leaf → Bool) (s : Step) (t : Trails)
    → selects v (prefix s t) ≡ (selects_step v s && selects v t)
unfolding selects selects_step prefix
selects-prefix v s no_trails = and_false (selects_step v s)
selects-prefix v s (also x t) = ground (arith, selects-prefix v s t)

pub and_assoc : (a b c : Bool) → (a && (b && c)) ≡ ((a && b) && c)
and_assoc true b c = refl
and_assoc false b c = refl

pub or_and : (a b c : Bool) → ((a && c) || (b && c)) ≡ ((a || b) && c)
or_and true b true = refl
or_and true true false = refl
or_and true false false = refl
or_and false b c = refl
