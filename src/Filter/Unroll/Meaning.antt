-- ===== src/Filter/Unroll/Meaning.antt =====
-- filter.c, `__filter_unroll`: the paths of its result.
use filtergen.Base.{◌≡◌, refl, ap, ap₂, ◌∙◌}
use filtergen.Base.Outcome.{ok, Returns, returns, Returns-bind, Returns-ok}
use filtergen.Filter.Tree.{Filter, null, ptr, leaf, neg, siblings, subgroup}
use filtergen.Filter.Shape.{IsNegFree, IsUnrolled}
use filtergen.Filter.Append.Meaning.{AppendedEach, append_each_meaning}
use filtergen.Filter.Trails.{
  Trails, trails, join, prefix, field, enter, routes, after, across, only_done,
}
use filtergen.Filter.Unroll.{append_siblings, filter_unroll_tree}

pub append_siblings-Returns :
    (s c : Filter) → IsUnrolled s → IsUnrolled c → Returns (AppendedEach s c) (append_siblings s c)
unfolding append_siblings routes
append_siblings-Returns s null us uc = returns (us, λ rest. refl)
append_siblings-Returns s (ptr nd n) us uc = append_each_meaning s (ptr nd n) us uc

-- The same paths in the same order, both as a list of rules and as the end of a chain.
abbrev pub SamePaths : Filter → Filter → Type 0
SamePaths f f' =
    ((rest : Trails) → across f' rest ≡ across f rest)
    × ((rest : Trails) → after f' rest ≡ after f rest)

abbrev pub UnrolledOf : Filter → Filter → Type 0
UnrolledOf f f' = IsUnrolled f' × SamePaths f f'

unroll_meaning : (f : Filter) → IsNegFree f → Returns (UnrolledOf f) (filter_unroll_tree f)
unfolding filter_unroll_tree routes
unroll_meaning null h = returns (tt, ((λ rest. refl), (λ rest. refl)))
unroll_meaning (ptr (leaf l h c) n) (fc, fn) =
    Returns-bind (unroll_meaning c fc) λ c' (uc, (_, ec)).
      Returns-bind (unroll_meaning n fn) λ n' (un, (en, _)).
        let head = λ (rest : Trails). ap (prefix (field l h)) (ec rest) in
        returns ((uc, un), ((λ rest. ap₂ join (head rest) (en rest)), head))
unroll_meaning (ptr (neg s h c) n) f = absurd f
unroll_meaning (ptr (siblings s h c) n) (fs, fc, fn) =
    Returns-bind (unroll_meaning c fc) λ c' (uc, (_, ec)).
      Returns-bind (unroll_meaning s fs) λ s' (us, (es, _)).
        Returns-bind (append_siblings-Returns s' c' us uc) λ s'' (us', e).
          Returns-bind (unroll_meaning n fn) λ n' (un, (en, _)).
            let head = λ (rest : Trails). e rest ∙ es (after c' rest) ∙ ap (across s) (ec rest) in
            returns ((us', un), ((λ rest. ap₂ join (head rest) (en rest)), head))
unroll_meaning (ptr (subgroup name s h c) n) (fs, fc, fn) =
    Returns-bind (unroll_meaning c fc) λ c' (uc, (_, ec)).
      Returns-bind (unroll_meaning s fs) λ s' (us, (es, _)).
        Returns-bind (unroll_meaning n fn) λ n' (un, (en, _)).
          let head = λ (rest : Trails).
            ap₂ (λ inside following. prefix (enter name h inside) following) (es only_done)
              (ec rest) in
          returns ((us, uc, un), ((λ rest. ap₂ join (head rest) (en rest)), head))

pub unroll-Returns : (f : Filter) → IsNegFree f → Returns (UnrolledOf f) (filter_unroll_tree f)
unroll-Returns = unroll_meaning

-- Unrolling an unrolled tree returns it unchanged, so the passes of the C loop over the siblings
-- that it has already unrolled do nothing.
pub unroll_idem : (f : Filter) → IsUnrolled f → filter_unroll_tree f ≡ ok f
unfolding filter_unroll_tree append_siblings
unroll_idem null u = refl
unroll_idem (ptr (leaf l h c) n) (uc, un) = rw (unroll_idem c uc, unroll_idem n un)
unroll_idem (ptr (neg s h c) n) u = absurd u
unroll_idem (ptr (siblings s h null) n) (us, un) = rw (unroll_idem s us, unroll_idem n un)
unroll_idem (ptr (siblings s h (ptr _ _)) n) u = absurd u
unroll_idem (ptr (subgroup name s h c) n) (us, uc, un) =
    rw (unroll_idem c uc, unroll_idem s us, unroll_idem n un)

-- On a tree without negations `__filter_unroll` returns: it neither aborts on a negation nor on a
-- list of siblings with a child. The result is unrolled, and stands for the same paths in the same
-- order.
pub unroll-trails :
    (f : Filter)
    → IsNegFree f
    → (f' : Filter) × (filter_unroll_tree f ≡ ok f') × IsUnrolled f' × (trails f' ≡ trails f)
unfolding trails
unroll-trails f h =
    let (f', e, (u, (same, _))) = Returns-ok (unroll_meaning f h) in (f', e, u, same only_done)
