-- ===== src/Glue/Chains.antt =====
-- From the tree of a policy without groups to what the back ends with chains write.
use filtergen.Base.{Bool, Text, not, ◌++◌, ◌≡◌, refl}
use filtergen.Base.Outcome.{ok}
use filtergen.Filter.Types.{Family}
use filtergen.Filter.Tree.{Filter, Leaf}
use filtergen.Filter.Trails.{trails}
use filtergen.Filter.Packets.{meant, selects}
use filtergen.Filter.Negation.Operand.{IsNegatable}
use filtergen.Filter.Plain.{IsPlain}
use filtergen.Filter.Targets.Steady.{IsSteady}
use filtergen.Gen.Entry.{zero_ent, Flags}
use filtergen.Gen.Apply.Paths.{run_trails}
use filtergen.Gen.Compile.{compile-trails, compile_groups-trails}
use filtergen.Gen.Apply.Flat.{IsFlat}
use filtergen.Filter.Targets.{filter_unroll}
use filtergen.Output.Strapp.{Written}
use filtergen.Output.Lines.{optional}
use filtergen.Output.Iptables.{cb_iptables}
use filtergen.Output.Iptables.Bounds.{cb_iptables-IsProductive}
use filtergen.Output.Iptables.Skeleton as Iptables
use filtergen.Output.Restore.{cb_iptrestore}
use filtergen.Output.Restore.Bounds.{cb_iptrestore-IsProductive}
use filtergen.Output.Restore.Skeleton as Restore
use filtergen.Output.Ipchains.{cb_ipchains, fg_ipchains, skeleton}
use filtergen.Output.Ipchains.Rules.{cb_ipchains-IsProductive}

module _ (f : Filter) (negatable : IsNegatable f) (steady : IsSteady f) (plain : IsPlain f) where
  -- For a policy without groups whose negations stand over single conditions and whose targets
  -- stand last, for IPv4 and IPv6: the passes of `fg_iptables_common` before the walk end without a
  -- fault, and what it does from there is exactly this. It writes its skeleton, if that is asked
  -- for, and runs, in order and each from an empty entry, the paths of a tree. The run stops early
  -- where the walk does: with -1 at a path that fails, and with the end of the program at a path
  -- that gives a routing type a second time, whose message crashes; nothing is written then behind
  -- the rules. If the run returns a count, it then writes what stands behind the rules. These paths
  -- select exactly the packets that the tree means.
  pub fg_iptables-trails :
      (prog : Text) (family : Family) (flags : Flags) (out : Written)
      → (f' : Filter) × (Iptables.fg_iptables_common prog family f flags out
          ≡ ok (
              Iptables.finish prog flags (
                run_trails
                  (cb_iptables prog family flags)
                  (trails f')
                  zero_ent
                  (Iptables.started prog family flags out))))
        × ((v : Leaf → Bool) → selects v (trails f') ≡ meant v f)
  unfolding Iptables.fg_iptables_common
  fg_iptables-trails prog family flags out =
      let (f', e, runs, means) =
        compile-trails (cb_iptables prog family flags) f
          (cb_iptables-IsProductive prog family flags) negatable steady plain in
      (f', rw (e, runs (Iptables.started prog family flags out)) refl, means)

  -- For a policy without groups whose negations stand over single conditions and whose targets
  -- stand last, for IPv4 and IPv6: the passes of `fg_iptrestore_common` before the walk end without
  -- a fault, and what it does from there is exactly this. It writes its skeleton, if that is asked
  -- for, and runs, in order and each from an empty entry, the paths of a tree. The run stops early
  -- where the walk does: with -1 at a path that fails, and with the end of the program at a path
  -- that gives a routing type a second time, whose message crashes; nothing is written then behind
  -- the rules. If the run returns a count, it then writes what stands behind the rules. These paths
  -- select exactly the packets that the tree means.
  pub fg_iptrestore-trails :
      (prog : Text) (family : Family) (flags : Flags) (out : Written)
      → (f' : Filter) × (Restore.fg_iptrestore_common prog family f flags out
          ≡ ok (
              Restore.finish flags (
                run_trails
                  (cb_iptrestore family flags)
                  (trails f')
                  zero_ent
                  (Restore.started prog flags out))))
        × ((v : Leaf → Bool) → selects v (trails f') ≡ meant v f)
  unfolding Restore.fg_iptrestore_common
  fg_iptrestore-trails prog family flags out =
      let (f', e, runs, means) =
        compile-trails (cb_iptrestore family flags) f (cb_iptrestore-IsProductive family flags)
          negatable steady plain in
      (f', rw (e, runs (Restore.started prog flags out)) refl, means)

  -- For a policy without groups whose negations stand over single conditions and whose targets
  -- stand last: the passes of `fg_ipchains` before the walk end without a fault, and what it does
  -- from there is exactly this. It writes its skeleton, if that is asked for, and runs, in order
  -- and each from an empty entry, the paths of a tree. The run stops early where the walk does:
  -- with -1 at a path that fails, and with the end of the program at a path that gives a routing
  -- type a second time, whose message crashes. These paths select exactly the packets that the tree
  -- means.
  pub fg_ipchains-trails :
      (null_text : Text) (flags : Flags) (out : Written)
      → (f' : Filter) × (fg_ipchains null_text f flags out
          ≡ ok (
              run_trails
                (cb_ipchains null_text flags)
                (trails f')
                zero_ent
                (out ++ optional (not flags.noskel) skeleton)))
        × ((v : Leaf → Bool) → selects v (trails f') ≡ meant v f)
  unfolding fg_ipchains
  fg_ipchains-trails null_text flags out =
      let (f', e, runs, means) =
        compile-trails (cb_ipchains null_text flags) f (cb_ipchains-IsProductive null_text flags)
          negatable steady plain in
      (f', rw (e, runs (out ++ optional (not flags.noskel) skeleton)) refl, means)

-- For a policy with groups whose negations stand over single conditions and whose targets stand
-- last, for IPv4 and IPv6: whenever `filter_unroll` ends without a fault and leaves a tree without
-- empty lists of siblings in which nothing but single conditions stands behind a group, neither a
-- list of siblings nor another group, what `fg_iptables_common` does is exactly this. It writes its
-- skeleton, if that is asked for, and runs, in order and each from an empty entry, the paths of the
-- unrolled tree; where a path enters a group, the back end makes the group's chains, and the paths
-- of the group run for an entry with the group's name and the direction only, before the path goes
-- on. The run stops early where the walk does: with -1 at a path that fails, and with the end of
-- the program at a path that gives a routing type a second time, whose message crashes; nothing is
-- written then behind the rules. If the run returns a count, it then writes what stands behind the
-- rules. These paths select exactly the packets that the tree means.
pub fg_iptables_groups-trails :
    (prog : Text) (family : Family) (flags : Flags) (out : Written) (f f' : Filter)
    → IsNegatable f
    → IsSteady f
    → filter_unroll f ≡ ok f'
    → IsFlat f'
    → (Iptables.fg_iptables_common prog family f flags out
        ≡ ok (
            Iptables.finish prog flags (
              run_trails
                (cb_iptables prog family flags)
                (trails f')
                zero_ent
                (Iptables.started prog family flags out))))
      × ((v : Leaf → Bool) → selects v (trails f') ≡ meant v f)
unfolding Iptables.fg_iptables_common
fg_iptables_groups-trails prog family flags out f f' negatable steady e flat =
    let (runs, means) =
      compile_groups-trails (cb_iptables prog family flags) f f'
        (cb_iptables-IsProductive prog family flags) negatable steady e flat in
    (rw (e, runs (Iptables.started prog family flags out)) refl, means)
