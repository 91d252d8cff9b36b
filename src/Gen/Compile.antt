-- ===== src/Gen/Compile.antt =====
-- filter.c and gen.c together: what a back end without groups is given for a parsed tree.
use mathlib.Core.Path.{subst}
use filtergen.Base.{Bool, ◌≡◌}
use filtergen.Base.Outcome.{ok, Returns-at}
use filtergen.Filter.Tree.{Filter, null, ptr, Leaf, leaf, neg, siblings, subgroup}
use filtergen.Filter.Shape.{IsUnrolled}
use filtergen.Filter.Plain.{IsPlain, neg_expand-IsPlain, unroll-IsPlain}
use filtergen.Filter.Trails.{trails}
use filtergen.Filter.Packets.{meant, selects}
use filtergen.Filter.Negation.Operand.{IsNegatable}
use filtergen.Filter.Targets.{filter_unroll}
use filtergen.Filter.Targets.Steady.{IsSteady, filter_unroll-path, filter_unroll-meaning}
use filtergen.Gen.Entry.{Callback, zero_ent}
use filtergen.Gen.Apply.{filtergen_cprod}
use filtergen.Gen.Apply.Flat.{IsFlat}
use filtergen.Gen.Apply.Counts.{IsProductive}
use filtergen.Gen.Apply.Paths.{run_trails}
use filtergen.Gen.Apply.Refine.{cprod-trails}

plain-IsFlat : (f : Filter) → IsPlain f → IsUnrolled f → IsFlat f
plain-IsFlat null p u = tt
plain-IsFlat (ptr (leaf l h c) n) (pc, pn) (uc, un) = (plain-IsFlat c pc uc, plain-IsFlat n pn un)
plain-IsFlat (ptr (neg s h c) n) p u = absurd u
plain-IsFlat (ptr (siblings null h null) n) p u = absurd p
plain-IsFlat (ptr (siblings null h (ptr _ _)) n) p u = absurd u
plain-IsFlat (ptr (siblings (ptr nd m) h null) n) (ps, _, pn) (us, un) =
    (plain-IsFlat (ptr nd m) ps us, plain-IsFlat n pn un)
plain-IsFlat (ptr (siblings (ptr nd m) h (ptr _ _)) n) p u = absurd u
plain-IsFlat (ptr (subgroup name s h c) n) p u = absurd p

-- For a tree whose negations stand over single leaves, whose targets stand last, without subgroups
-- and without empty lists: `filter_unroll` returns, and the walk over its result is, for every back
-- end that writes at least one rule for each entry or fails, the run of the result's paths in
-- order, each from an empty entry. These paths select exactly the packets that the parsed tree
-- means.
pub compile-trails :
    {S : Type 0} (cb : Callback S) (f : Filter)
    → IsProductive cb
    → IsNegatable f
    → IsSteady f
    → IsPlain f
    → (f' : Filter) × (filter_unroll f ≡ ok f')
      × ((s : S) → filtergen_cprod cb f' s ≡ run_trails cb (trails f') zero_ent s)
      × ((v : Leaf → Bool) → selects v (trails f') ≡ meant v f)
compile-trails cb f productive o st p =
    let (expanded, f', e, d, free, u, whole, means) = filter_unroll-path f o st in
    let plain = (Returns-at (neg_expand-IsPlain f o p) e).0 in
    let plain' = (Returns-at (unroll-IsPlain expanded free plain) d).0 in
    (f', whole, (λ s. cprod-trails cb productive f' s (plain-IsFlat f' plain' u)), means)

-- For a tree with groups whose negations stand over single leaves and whose targets stand last:
-- whenever `filter_unroll` leaves a tree without empty lists of siblings in which nothing but
-- leaves stands behind a group, neither a list of siblings nor another group, the walk over its
-- result is, for every back end that writes at least one rule for each entry or fails, the run of
-- the result's paths in order, each from an empty entry, groups opened on the way. These paths
-- select exactly the packets that the parsed tree means.
pub compile_groups-trails :
    {S : Type 0} (cb : Callback S) (f f' : Filter)
    → IsProductive cb
    → IsNegatable f
    → IsSteady f
    → filter_unroll f ≡ ok f'
    → IsFlat f'
    → ((s : S) → filtergen_cprod cb f' s ≡ run_trails cb (trails f') zero_ent s)
      × ((v : Leaf → Bool) → selects v (trails f') ≡ meant v f)
compile_groups-trails cb f f' productive o st e flat =
    let (x, e', u, means) = filter_unroll-meaning f o st in
    (
      (λ s. cprod-trails cb productive f' s flat),
      (λ v. subst (λ y. selects v (trails y) ≡ meant v f) {x = x} {y = f'} (cc) (means v)),
    )
