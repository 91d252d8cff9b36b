-- ===== src/Gen/Apply/Refine.antt =====
-- The walk of gen.c against the run of the paths, one after another.
use filtergen.Base.{
  Text, List, [], ◌∷◌, Option, none, some, ◌≡◌, ◌≢◌, refl, ap, ap₂, sym, fun_ext, ◌∙◌,
}
use filtergen.Filter.Tree.{Filter, null, ptr, Node, Head, leaf, neg, siblings, subgroup}
use filtergen.Filter.Trails.{
  Trails, Trail, field, enter, done, step, no_trails, also, routes, after, across, only_done,
  trails, prefix,
}
use filtergen.Gen.Entry.{
  FilterEnt, zero_ent, Count, failed, aborted, rules, Applied, refused, crashes, filled, Run,
  Callback,
}
use filtergen.Gen.Check.{applydefaults, Complaint, checkmatch}
use filtergen.Gen.Apply.{
  fg_applyone_leaf, fg_finish, unless_complaints, with_ent, then_rest, unless_result, fg_apply_node,
  fg_apply, fg_applylist, filtergen_cprod, open_subgroup, in_subgroup, unless_failed, group_ent,
}
use filtergen.Gen.Apply.Paths.{run_trail, run_trails}
use filtergen.Gen.Apply.Flat.{
  IsStraight, straight-after, HasPath-straight, IsFlat, IsFlatNode, IsFlat-ptr, HasPath,
  HasPath-after, HasPath-across,
}
use filtergen.Gen.Apply.Counts.{
  IsProductive, then_nothing, then_congr, with_congr, then_ne_zero, result_stops,
}
use filtergen.Gen.Apply.Runs.{run-join, run-prefix, pos_irrelevant}

unless_failed_ne_zero :
    {S : Type 0} (x : S × Count) (next : Run S)
    → ((s : S) → (next s).1 ≢ rules 0)
    → (unless_failed x next).1 ≢ rules 0
unless_failed_ne_zero (s, failed) next h = cc
unless_failed_ne_zero (s, aborted) next h = cc
unless_failed_ne_zero (s, rules n) next h = h s

module _ {S : Type 0} (cb : Callback S) where
  unless_ne_zero :
      (complaints : List Complaint) (next : Run S) (s : S)
      → (next s).1 ≢ rules 0
      → (unless_complaints complaints next s).1 ≢ rules 0
  unless_ne_zero [] next s h = h
  unless_ne_zero (_ ∷ _) next s h = cc

  finish_ne_zero : IsProductive cb → (e : FilterEnt) (s : S) → (fg_finish cb e s).1 ≢ rules 0
  unfolding fg_finish
  finish_ne_zero p e s =
      let whole = applydefaults e cb.flags in
      unless_ne_zero (checkmatch whole) (cb.rule whole) s (p whole s)

  with_ne_zero :
      (o : Applied) (k : FilterEnt → Run S) (s : S)
      → ((e : FilterEnt) → (k e s).1 ≢ rules 0)
      → (with_ent o k s).1 ≢ rules 0
  with_ne_zero refused k s h = cc
  with_ne_zero crashes k s h = cc
  with_ne_zero (filled e) k s h = h e

  group_ne_zero :
      (g : Option (Text → S → S)) (name : Text) (h : Head) (inside next : FilterEnt → Run S)
      → ((e : FilterEnt) (s : S) → (next e s).1 ≢ rules 0)
      → (e : FilterEnt) (s : S) → (in_subgroup g name h inside next e s).1 ≢ rules 0
  group_ne_zero none name h inside next k e s = cc
  group_ne_zero (some group) name h inside next k e s =
      unless_failed_ne_zero (inside (group_ent name e) (group name s)) _ (k _)

  trail_ne_zero :
      IsProductive cb → (t : Trail) (e : FilterEnt) (s : S) → (run_trail cb t e s).1 ≢ rules 0
  unfolding run_trail
  trail_ne_zero p done e s = finish_ne_zero p e s
  trail_ne_zero p (step (field l h) t) e s =
      with_ne_zero (fg_applyone_leaf l h e) (run_trail cb t) s (λ e'. trail_ne_zero p t e' s)
  trail_ne_zero p (step (enter name h inside) t) e s =
      with_ne_zero (open_subgroup name h e)
        (in_subgroup cb.group name h (run_trails cb inside) (run_trail cb t)) s
        (λ e'.
          group_ne_zero cb.group name h (run_trails cb inside) (run_trail cb t)
            (λ e'' s''. trail_ne_zero p t e'' s'') e' s)

  trails_ne_zero :
      IsProductive cb
      → (ts : Trails) (e : FilterEnt) (s : S) → HasPath ts
      → (run_trails cb ts e s).1 ≢ rules 0
  unfolding run_trails
  trails_ne_zero p no_trails e s h = absurd h
  trails_ne_zero p (also t ts) e s h =
      then_ne_zero (run_trail cb t e s) (run_trails cb ts e) (trail_ne_zero p t e s)

  run-one :
      (c : Filter) (t : Trail) (e : FilterEnt) (s : S)
      → after c only_done ≡ also t no_trails
      → run_trails cb (after c only_done) e s ≡ run_trail cb t e s
  unfolding run_trails
  run-one c t e s one = ap (λ ts. run_trails cb ts e s) one ∙ then_nothing (run_trail cb t e s)

  in_subgroup_congr :
      (g : Option (Text → S → S)) (name : Text) (h : Head)
      (inside inside' next next' : FilterEnt → Run S)
      → ((e : FilterEnt) (s : S) → inside e s ≡ inside' e s)
      → ((e : FilterEnt) (s : S) → next e s ≡ next' e s)
      → (e : FilterEnt) (s : S)
      → in_subgroup g name h inside next e s ≡ in_subgroup g name h inside' next' e s
  in_subgroup_congr g name h inside inside' next next' i n e s =
      ap₂ (λ (j k : FilterEnt → Run S). in_subgroup g name h j k e s)
        (fun_ext λ d. fun_ext λ r. i d r) (fun_ext λ d. fun_ext λ r. n d r)

  module _ (productive : IsProductive cb) where
    mutual
      unfolding fg_apply_node routes run_trails run_trail prefix

      node-run :
          (nd : Node) (e : FilterEnt) (s : S)
          → IsFlatNode nd
          → fg_apply_node cb nd e s ≡ run_trails cb (routes nd only_done) e s
      node-run (leaf l h c) e s f =
          with_congr (fg_applyone_leaf l h e) (fg_apply cb c) (run_trails cb (after c only_done)) s
            (λ e'. chain-run c e' s f.0)
          ∙ sym (run-prefix cb l h (after c only_done) e s (HasPath-after c only_done f.0 tt))
      node-run (neg g h c) e s f = absurd f
      node-run (siblings (ptr nd m) h null) e s f =
          let whole = pos_irrelevant cb (ptr nd m) e h.pos s ∙ list-run (ptr nd m) e s f.0 in
          let found =
            trails_ne_zero productive (across (ptr nd m) only_done) e s
              (HasPath-across (ptr nd m) only_done f.0 tt (cc)) in
          ap (λ (x : S × Count). unless_result x (fg_apply cb null (record e { pos = h.pos })))
            whole
          ∙ result_stops _ _ found
      node-run (siblings null h null) e s f = absurd f
      node-run (siblings null h (ptr _ _)) e s f = absurd f
      node-run (siblings (ptr nd m) h (ptr _ _)) e s f = absurd f
      node-run (subgroup name g h c) e s f =
          let (t, one) = straight-after c f.1 in
          with_congr (open_subgroup name h e)
            (in_subgroup cb.group name h (fg_applylist cb g) (fg_apply cb c))
            (in_subgroup cb.group name h (run_trails cb (across g only_done)) (run_trail cb t)) s
            (λ e'.
              in_subgroup_congr cb.group name h _ _ _ _ (λ d r. list-run g d r f.0)
                (λ d r. straight-run c d r f.1 ∙ run-one c t d r one) e' s)
          ∙ sym (
              ap (λ ts. run_trails cb (prefix (enter name h (across g only_done)) ts) e s) one
              ∙ then_nothing _)

      straight-run :
          (f : Filter) (e : FilterEnt) (s : S)
          → IsStraight f
          → fg_apply cb f e s ≡ run_trails cb (after f only_done) e s
      straight-run null e s f = sym (then_nothing (fg_finish cb e s))
      straight-run (ptr (leaf l h c) n) e s f =
          with_congr (fg_applyone_leaf l h e) (fg_apply cb c) (run_trails cb (after c only_done)) s
            (λ e'. straight-run c e' s f)
          ∙ sym (run-prefix cb l h (after c only_done) e s (HasPath-straight c only_done f tt))
      straight-run (ptr (neg g h c) n) e s f = absurd f
      straight-run (ptr (siblings g h c) n) e s f = absurd f
      straight-run (ptr (subgroup name g h c) n) e s f = absurd f

      chain-run :
          (f : Filter) (e : FilterEnt) (s : S)
          → IsFlat f
          → fg_apply cb f e s ≡ run_trails cb (after f only_done) e s
      chain-run null e s f = sym (then_nothing (fg_finish cb e s))
      chain-run (ptr nd n) e s f = node-run nd e s (IsFlat-ptr nd n f).0

      list-run :
          (f : Filter) (e : FilterEnt) (s : S)
          → IsFlat f
          → fg_applylist cb f e s ≡ run_trails cb (across f only_done) e s
      list-run null e s f = refl
      list-run (ptr nd n) e s f =
          let (fnd, fn) = IsFlat-ptr nd n f in
          ap (λ (x : S × Count). then_rest x (fg_applylist cb n e)) (node-run nd e s fnd)
          ∙ then_congr (run_trails cb (routes nd only_done) e s) (fg_applylist cb n e)
              (run_trails cb (across n only_done) e) (λ s'. list-run n e s' fn)
          ∙ sym (run-join cb (routes nd only_done) (across n only_done) e s)

    -- On an unrolled tree without empty lists of siblings, in which nothing but single conditions
    -- stands behind a subgroup, neither a list of siblings nor another subgroup, and for a back end
    -- that writes at least one rule for each entry or fails, `filtergen_cprod` does exactly this:
    -- it runs the paths of the tree in order, each from an empty entry, stops at the first that
    -- fails or that ends the program, and otherwise returns the sum of the counts. A path that
    -- enters a group has the back end open the group and runs the paths of the group, for an entry
    -- with the group's name and the direction only, before it goes on.
    pub cprod-trails :
        (f : Filter) (s : S)
        → IsFlat f
        → filtergen_cprod cb f s ≡ run_trails cb (trails f) zero_ent s
    unfolding filtergen_cprod trails
    cprod-trails f s flat = list-run f zero_ent s flat
