-- ===== src/Filter/Negation/Meaning.antt =====
-- filter.c, `__filter_neg_expand`: what its result selects.
use filtergen.Base.{Bool, true, false, ◌&&◌, ◌||◌, not, ◌≡◌, refl, ap, ap₂, ◌∙◌}
use filtergen.Base.Outcome.{ok, Returns, returns, Returns-bind, Returns-ok}
use filtergen.Filter.Tree.{Filter, null, ptr, Leaf, leaf, neg, siblings, subgroup}
use filtergen.Filter.Shape.{IsNegFree}
use filtergen.Filter.Trails.{
  Trails, Step, trails, join, prefix, field, enter, routes, after, across, only_done,
}
use filtergen.Filter.Packets.{
  meant, meant_node, meant_chain, selects, selects_step, selects-join, selects-prefix, and_assoc,
  or_and,
}
use filtergen.Filter.Negation.Operand.{
  IsNegatable, attached, neg_expand-operand, append-operand, mark-attached, IsNegFree-attached,
  selects-attached,
}
use filtergen.Filter.Negation.{filter_neg_expand, marked}

-- Nothing is negated any more, and the paths select what the parsed tree means.
abbrev pub ExpandedOf : Filter → Filter → Type 0
ExpandedOf f f' =
    IsNegFree f'
    × ((v : Leaf → Bool) (rest : Trails)
        → selects v (across f' rest) ≡ (meant v f && selects v rest))
    × ((v : Leaf → Bool) (rest : Trails)
        → selects v (after f' rest) ≡ (meant_chain v f && selects v rest))

-- From the node's own equation and that of what stands next to it.
list_meaning :
    (v : Leaf → Bool) (first others rest : Trails) (a b : Bool)
    → selects v first ≡ (a && selects v rest)
    → selects v others ≡ (b && selects v rest)
    → selects v (join first others) ≡ ((a || b) && selects v rest)
list_meaning v first others rest a b e d =
    selects-join v first others ∙ ap₂ ◌||◌ e d ∙ or_and a b (selects v rest)

step_meaning :
    (v : Leaf → Bool) (s : Step) (following rest : Trails) (a c : Bool)
    → selects_step v s ≡ a
    → selects v following ≡ (c && selects v rest)
    → selects v (prefix s following) ≡ ((a && c) && selects v rest)
step_meaning v s following rest a c e d =
    selects-prefix v s following ∙ ap₂ ◌&&◌ e d ∙ and_assoc a c (selects v rest)

then_meaning :
    (v : Leaf → Bool) (whole following rest : Trails) (a c : Bool)
    → selects v whole ≡ (a && selects v following)
    → selects v following ≡ (c && selects v rest)
    → selects v whole ≡ ((a && c) && selects v rest)
then_meaning v whole following rest a c e d =
    e ∙ ap (λ r. a && r) d ∙ and_assoc a c (selects v rest)

alone : (v : Leaf → Bool) (b : Bool) → (b && selects v only_done) ≡ b
unfolding selects
alone v true = refl
alone v false = refl

neg_expand-Returns :
    (f : Filter) → IsNegatable f → Returns (ExpandedOf f) (filter_neg_expand f false)
unfolding filter_neg_expand routes meant_node selects
neg_expand-Returns null o = returns (tt, (λ v rest. refl), λ v rest. refl)
neg_expand-Returns (ptr (leaf l h c) n) (oc, on) =
    Returns-bind (neg_expand-Returns c oc) λ c' (fc, _, ec).
      Returns-bind (neg_expand-Returns n on) λ n' (fn, en, _).
        let head = λ (v : Leaf → Bool) (rest : Trails).
          step_meaning v (field l (marked h false)) (after c' rest) rest (v l) (meant_chain v c)
            (unfold selects_step in refl) (ec v rest) in
        returns (
          (fc, fn),
          (λ v rest.
              list_meaning v _ (across n' rest) rest _ (meant v n) (head v rest) (en v rest)),
          head,
        )
neg_expand-Returns (ptr (neg null h c) n) o = absurd o
neg_expand-Returns (ptr (neg (ptr nd null) h c) n) (o, oc, on) =
    Returns-bind (neg_expand-Returns c oc) λ c' (fc, _, ec).
      Returns-bind (neg_expand-Returns n on) λ n' (fn, en, _).
        let head = λ (v : Leaf → Bool) (rest : Trails).
          then_meaning v (routes (attached nd c') rest) (after c' rest) rest (not (meant_node v nd))
            (meant_chain v c) (selects-attached v nd c' rest o) (ec v rest) in
        rw (neg_expand-operand nd o, append-operand nd c' o, mark-attached nd c' o)
          (returns (
            IsNegFree-attached nd c' n' o fc fn,
            (λ v rest.
                list_meaning v _ (across n' rest) rest _ (meant v n) (head v rest) (en v rest)),
            head,
          ))
neg_expand-Returns (ptr (neg (ptr nd (ptr _ _)) h c) n) o = absurd o
neg_expand-Returns (ptr (siblings s h c) n) (os, oc, on) =
    Returns-bind (neg_expand-Returns c oc) λ c' (fc, _, ec).
      Returns-bind (neg_expand-Returns n on) λ n' (fn, en, _).
        Returns-bind (neg_expand-Returns s os) λ s' (fs, es, _).
          let head = λ (v : Leaf → Bool) (rest : Trails).
            then_meaning v (across s' (after c' rest)) (after c' rest) rest (meant v s)
              (meant_chain v c) (es v (after c' rest)) (ec v rest) in
          returns (
            (fs, fc, fn),
            (λ v rest.
                list_meaning v _ (across n' rest) rest _ (meant v n) (head v rest) (en v rest)),
            head,
          )
neg_expand-Returns (ptr (subgroup name s h c) n) (os, oc, on) =
    Returns-bind (neg_expand-Returns c oc) λ c' (fc, _, ec).
      Returns-bind (neg_expand-Returns n on) λ n' (fn, en, _).
        Returns-bind (neg_expand-Returns s os) λ s' (fs, es, _).
          let head = λ (v : Leaf → Bool) (rest : Trails).
            step_meaning v (enter name (marked h false) (across s' only_done)) (after c' rest) rest
              (meant v s) (meant_chain v c)
              (unfold selects_step in es v only_done ∙ alone v (meant v s)) (ec v rest) in
          returns (
            (fs, fc, fn),
            (λ v rest.
                list_meaning v _ (across n' rest) rest _ (meant v n) (head v rest) (en v rest)),
            head,
          )

-- On a tree whose negations stand over single leaves, `__filter_neg_expand` returns a tree without
-- negation nodes, and the paths through it select exactly the packets that the parsed tree means.
pub neg_expand-meaning :
    (f : Filter)
    → IsNegatable f
    → (f' : Filter) × (filter_neg_expand f false ≡ ok f')
      × IsNegFree f'
      × ((v : Leaf → Bool) → selects v (trails f') ≡ meant v f)
unfolding trails
neg_expand-meaning f o =
    let (f', e, (free, same, _)) = Returns-ok (neg_expand-Returns f o) in
    (f', e, free, λ v. same v only_done ∙ alone v (meant v f))
