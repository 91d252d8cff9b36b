-- ===== src/Filter/Factor.antt =====
-- What the paths through a chain select, apart from what follows the chain.
use filtergen.Base.{Bool, ◌&&◌, ◌||◌, ◌≡◌, refl, ap, ap₂, ◌∙◌, sym}
use filtergen.Filter.Tree.{Filter, null, ptr, Node, Leaf, leaf, neg, siblings, subgroup}
use filtergen.Filter.Trails.{
  Trails, Step, join, prefix, field, enter, routes, after, across, only_done,
}
use filtergen.Filter.Packets.{
  selects, selects_step, selects-join, selects-prefix, and_assoc, or_and,
}

prefix_factor :
    (v : Leaf → Bool) (s : Step) (with_rest alone : Trails) (r : Bool)
    → selects v with_rest ≡ (selects v alone && r)
    → selects v (prefix s with_rest) ≡ (selects v (prefix s alone) && r)
prefix_factor v s with_rest alone r e =
    selects-prefix v s with_rest
    ∙ ap (λ b. selects_step v s && b) e
    ∙ and_assoc (selects_step v s) (selects v alone) r
    ∙ ap (λ b. b && r) (sym (selects-prefix v s alone))

join_factor :
    (v : Leaf → Bool) (s t s' t' : Trails) (r : Bool)
    → selects v s ≡ (selects v s' && r)
    → selects v t ≡ (selects v t' && r)
    → selects v (join s t) ≡ (selects v (join s' t') && r)
join_factor v s t s' t' r e d =
    selects-join v s t
    ∙ ap₂ ◌||◌ e d
    ∙ or_and (selects v s') (selects v t') r
    ∙ ap (λ b. b && r) (sym (selects-join v s' t'))

chain_factor :
    (whole a end alone c r : Bool)
    → whole ≡ (a && end)
    → end ≡ (c && r)
    → alone ≡ (a && c)
    → whole ≡ (alone && r)
chain_factor whole a end alone c r e d f =
    e ∙ ap (λ b. a && b) d ∙ and_assoc a c r ∙ ap (λ b. b && r) (sym f)

mutual
  unfolding routes selects

  pub routes_factor :
      (v : Leaf → Bool) (nd : Node) (rest : Trails)
      → selects v (routes nd rest) ≡ (selects v (routes nd only_done) && selects v rest)
  routes_factor v (leaf l h c) rest =
      prefix_factor v (field l h) (after c rest) (after c only_done) _ (after_factor v c rest)
  routes_factor v (neg s h c) rest = refl
  routes_factor v (siblings s h c) rest =
      chain_factor _ (selects v (across s only_done)) (selects v (after c rest)) _
        (selects v (after c only_done)) (selects v rest) (across_factor v s (after c rest))
        (after_factor v c rest) (across_factor v s (after c only_done))
  routes_factor v (subgroup name s h c) rest =
      prefix_factor v (enter name h (across s only_done)) (after c rest) (after c only_done) _
        (after_factor v c rest)

  pub after_factor :
      (v : Leaf → Bool) (f : Filter) (rest : Trails)
      → selects v (after f rest) ≡ (selects v (after f only_done) && selects v rest)
  after_factor v null rest = refl
  after_factor v (ptr nd n) rest = routes_factor v nd rest

  pub across_factor :
      (v : Leaf → Bool) (f : Filter) (rest : Trails)
      → selects v (across f rest) ≡ (selects v (across f only_done) && selects v rest)
  across_factor v null rest = refl
  across_factor v (ptr nd n) rest =
      join_factor v (routes nd rest) (across n rest) (routes nd only_done) (across n only_done) _
        (routes_factor v nd rest) (across_factor v n rest)
