-- ===== src/Gen/Apply/Paths.antt =====
-- The specification of the walk: every path of the cross product by itself, from an empty entry.
use filtergen.Filter.Trails.{Trail, Trails, field, enter, done, step, no_trails, also}
use filtergen.Gen.Entry.{FilterEnt, Count, rules, Callback}
use filtergen.Gen.Apply.{
  fg_applyone_leaf, fg_finish, with_ent, then_rest, open_subgroup, in_subgroup,
}

module _ {S : Type 0} (cb : Callback S) where
  unfoldable mutual
    -- A path fills an entry step by step and then calls the back end once. Where it enters a group,
    -- the back end opens the group, the paths of the group run from an entry of their own, and
    -- their count is dropped.
    pub run_trail : Trail → FilterEnt → S → S × Count
    run_trail done e s = fg_finish cb e s
    run_trail (step (field l h) t) e s = with_ent (fg_applyone_leaf l h e) (run_trail t) s
    run_trail (step (enter name h inside) t) e s =
        with_ent (open_subgroup name h e)
          (in_subgroup cb.group name h (run_trails inside) (run_trail t)) s

    pub run_trails : Trails → FilterEnt → S → S × Count
    run_trails no_trails e s = (s, rules 0)
    run_trails (also t ts) e s = then_rest (run_trail t e s) (run_trails ts e)
