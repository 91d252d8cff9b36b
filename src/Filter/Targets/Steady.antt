-- ===== src/Filter/Targets/Steady.antt =====
-- filter.c, `filter_unroll` on rules whose targets stand last, as rules are mostly written.
use filtergen.Base.{Bool, false, ◌&&◌, ◌≡◌, refl, ap, ◌∙◌}
use filtergen.Base.Outcome.{ok, Returns, returns, Returns-bind, Returns-at}
use filtergen.Filter.Tree.{Filter, null, ptr, Node, Leaf, leaf, neg, siblings, subgroup}
use filtergen.Filter.Shape.{IsNegFree, IsUnrolled}
use filtergen.Filter.Trails.{trails}
use filtergen.Filter.Packets.{selects, meant}
use filtergen.Filter.Negation.{filter_neg_expand}
use filtergen.Filter.Negation.Operand.{
  IsOperand, IsNegatable, attached, neg_expand-operand, append-operand, mark-attached,
}
use filtergen.Filter.Negation.Meaning.{neg_expand-meaning}
use filtergen.Filter.Unroll.{filter_unroll_tree}
use filtergen.Filter.Unroll.Meaning.{unroll-trails, unroll-Returns, append_siblings-Returns}
use filtergen.Filter.Targets.{is_target, not_null, filter_targets_to_end, filter_unroll}

-- No target with something behind it on the way down the children and along the lists; inside
-- siblings and subgroups the pass does not look.
abbrev IsNoTarget : Filter → Type 0
IsNoTarget (ptr (leaf l h c) n) = is_target l ≡ false
IsNoTarget _ = Unit

abbrev pub IsSteady : Filter → Type 0
IsSteady null = Unit {0}
IsSteady (ptr (leaf l h c) n) = ((is_target l && not_null c) ≡ false) × IsSteady c × IsSteady n
IsSteady (ptr (neg s h c) n) = IsNoTarget s × IsSteady c × IsSteady n
IsSteady (ptr (siblings s h c) n) = IsSteady c × IsSteady n
IsSteady (ptr (subgroup name s h c) n) = IsSteady c × IsSteady n

-- On such a tree `__filter_targets_to_end` changes nothing.
pub targets_to_end-IsSteady : (f : Filter) → IsSteady f → filter_targets_to_end f ≡ ok f
unfolding filter_targets_to_end
targets_to_end-IsSteady null s = refl
targets_to_end-IsSteady (ptr (leaf l h c) n) (t, sc, sn) =
    rw (t, targets_to_end-IsSteady c sc, targets_to_end-IsSteady n sn)
targets_to_end-IsSteady (ptr (neg s h c) n) (_, sc, sn) =
    rw (targets_to_end-IsSteady c sc, targets_to_end-IsSteady n sn)
targets_to_end-IsSteady (ptr (siblings s h c) n) (sc, sn) =
    rw (targets_to_end-IsSteady c sc, targets_to_end-IsSteady n sn)
targets_to_end-IsSteady (ptr (subgroup name s h c) n) (sc, sn) =
    rw (targets_to_end-IsSteady c sc, targets_to_end-IsSteady n sn)

abbrev StaysSteady : Filter → Filter → Type 0
StaysSteady f f' = (not_null f' ≡ not_null f) × IsSteady f'

attached-IsSteady :
    (nd : Node) (x n : Filter)
    → IsOperand nd
    → IsNoTarget (ptr nd null)
    → IsSteady x
    → IsSteady n
    → IsSteady (ptr (attached nd x) n)
unfolding attached
attached-IsSteady (leaf l h null) x n o t sx sn = (rw t, sx, sn)
attached-IsSteady (siblings (ptr nd null) h null) x n o t sx sn = (tt, sn)
attached-IsSteady _ x n o t sx sn = absurd o

neg_expand-IsSteady :
    (f : Filter) → IsNegatable f → IsSteady f → Returns (StaysSteady f) (filter_neg_expand f false)
unfolding filter_neg_expand
neg_expand-IsSteady null o s = returns (refl, tt)
neg_expand-IsSteady (ptr (leaf l h c) n) (oc, on) (t, sc, sn) =
    Returns-bind (neg_expand-IsSteady c oc sc) λ c' (same, sc').
      Returns-bind (neg_expand-IsSteady n on sn)
        λ n' (_, sn'). returns (refl, (ap (λ b. is_target l && b) same ∙ t, sc', sn'))
neg_expand-IsSteady (ptr (neg null h c) n) o s = absurd o
neg_expand-IsSteady (ptr (neg (ptr nd null) h c) n) (o, oc, on) (t, sc, sn) =
    Returns-bind (neg_expand-IsSteady c oc sc) λ c' (_, sc').
      Returns-bind (neg_expand-IsSteady n on sn) λ n' (_, sn').
        rw (neg_expand-operand nd o, append-operand nd c' o, mark-attached nd c' o)
          (returns (refl, attached-IsSteady nd c' n' o t sc' sn'))
neg_expand-IsSteady (ptr (neg (ptr nd (ptr _ _)) h c) n) o s = absurd o
neg_expand-IsSteady (ptr (siblings s h c) n) (os, oc, on) (sc, sn) =
    Returns-bind (neg_expand-IsSteady c oc sc) λ c' (_, sc').
      Returns-bind (neg_expand-IsSteady n on sn) λ n' (_, sn').
        let (s', e, _, _) = neg_expand-meaning s os in rw e (returns (refl, (sc', sn')))
neg_expand-IsSteady (ptr (subgroup name s h c) n) (os, oc, on) (sc, sn) =
    Returns-bind (neg_expand-IsSteady c oc sc) λ c' (_, sc').
      Returns-bind (neg_expand-IsSteady n on sn) λ n' (_, sn').
        let (s', e, _, _) = neg_expand-meaning s os in rw e (returns (refl, (sc', sn')))

unroll-IsSteady :
    (f : Filter) → IsNegFree f → IsSteady f → Returns (StaysSteady f) (filter_unroll_tree f)
unfolding filter_unroll_tree
unroll-IsSteady null o s = returns (refl, tt)
unroll-IsSteady (ptr (leaf l h c) n) (oc, on) (t, sc, sn) =
    Returns-bind (unroll-IsSteady c oc sc) λ c' (same, sc').
      Returns-bind (unroll-IsSteady n on sn)
        λ n' (_, sn'). returns (refl, (ap (λ b. is_target l && b) same ∙ t, sc', sn'))
unroll-IsSteady (ptr (neg s h c) n) o st = absurd o
unroll-IsSteady (ptr (siblings s h c) n) (os, oc, on) (sc, sn) =
    Returns-bind (unroll-Returns c oc) λ c' (uc, _).
      Returns-bind (unroll-Returns s os) λ s' (us, _).
        Returns-bind (append_siblings-Returns s' c' us uc)
          λ s'' _. Returns-bind (unroll-IsSteady n on sn) λ n' (_, sn'). returns (refl, (tt, sn'))
unroll-IsSteady (ptr (subgroup name s h c) n) (os, oc, on) (sc, sn) =
    Returns-bind (unroll-IsSteady c oc sc) λ c' (_, sc').
      Returns-bind (unroll-Returns s os)
        λ s' _. Returns-bind (unroll-IsSteady n on sn) λ n' (_, sn'). returns (refl, (sc', sn'))

filter_unroll_steps :
    (f expanded unrolled : Filter)
    → filter_neg_expand f false ≡ ok expanded
    → filter_unroll_tree expanded ≡ ok unrolled
    → filter_targets_to_end unrolled ≡ ok unrolled
    → filter_unroll f ≡ ok unrolled
unfolding filter_unroll
filter_unroll_steps f expanded unrolled e d k = rw (e, d, k)

-- The two trees that `filter_unroll` goes through, and what is known of them.
pub filter_unroll-path :
    (f : Filter)
    → IsNegatable f
    → IsSteady f
    → (expanded f' : Filter) × (filter_neg_expand f false ≡ ok expanded)
      × (filter_unroll_tree expanded ≡ ok f')
      × IsNegFree expanded
      × IsUnrolled f'
      × (filter_unroll f ≡ ok f')
      × ((v : Leaf → Bool) → selects v (trails f') ≡ meant v f)
filter_unroll-path f o s =
    let (expanded, e, free, means) = neg_expand-meaning f o in
    let (unrolled, d, u, same) = unroll-trails expanded free in
    let steady = (Returns-at (neg_expand-IsSteady f o s) e).1 in
    let kept =
      targets_to_end-IsSteady unrolled (Returns-at (unroll-IsSteady expanded free steady) d).1 in
    (
      expanded,
      unrolled,
      e,
      d,
      free,
      u,
      filter_unroll_steps f expanded unrolled e d kept,
      λ v. ap (selects v) same ∙ means v,
    )

-- `filter_unroll` returns, for every tree whose negations stand over single leaves and whose
-- targets stand last: what it returns has one way through it only, and its paths select exactly
-- the packets that the parsed tree means.
pub filter_unroll-meaning :
    (f : Filter)
    → IsNegatable f
    → IsSteady f
    → (f' : Filter) × (filter_unroll f ≡ ok f')
      × IsUnrolled f'
      × ((v : Leaf → Bool) → selects v (trails f') ≡ meant v f)
filter_unroll-meaning f o s =
    let (expanded, f', e, d, free, u, whole, means) = filter_unroll-path f o s in
    (f', whole, u, means)
