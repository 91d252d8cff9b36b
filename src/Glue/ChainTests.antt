-- ===== src/Glue/ChainTests.antt =====
-- A policy without groups, and what the back ends with chains write for it.
use filtergen.Base.{Bool, true, false, ◌++◌, ◌≡◌, refl, some, none, [], Text, codes}
use filtergen.Base.Outcome.{ok}
use filtergen.Filter.Types.{input, t_accept, af_inet, no_mask}
use filtergen.Filter.Tree.{
  Filter, Leaf, Head, leaf, neg, siblings, subgroup, ptr, null, direction, target, source,
}
use filtergen.Filter.Trails.{trails}
use filtergen.Filter.Packets.{meant, selects}
use filtergen.Filter.Negation.Operand.{IsNegatable}
use filtergen.Filter.Targets.{filter_unroll, filter_targets_to_end}
use filtergen.Filter.Append.{filter_append, append_each}
use filtergen.Filter.Negation.{filter_neg_expand}
use filtergen.Filter.Unroll.{filter_unroll_tree}
use filtergen.Filter.Plain.{IsPlain}
use filtergen.Filter.Targets.Steady.{IsSteady}
use filtergen.Gen.Entry.{zero_ent, Flags}
use filtergen.Gen.Apply.Paths.{run_trails}
use filtergen.Output.Lines.{optional}
use filtergen.Output.Iptables.{cb_iptables, iptables}
use filtergen.Output.Iptables.Skeleton as Iptables
use filtergen.Output.Restore.{cb_iptrestore}
use filtergen.Output.Restore.Skeleton as Restore
use filtergen.Output.Ipchains.{cb_ipchains, fg_ipchains, skeleton}
use filtergen.Glue.Chains.{
  fg_iptables-trails, fg_iptrestore-trails, fg_ipchains-trails, fg_iptables_groups-trails,
}

abbrev plain_flags : Flags
plain_flags = record {
  noskel = false;
  lstate = false;
  local = false;
  route = false;
  noresolve = false;
  flush = false;
}

abbrev line : Head
line = record { negate = false; pos = 1 }

abbrev from : Text → Leaf
from s = source (record { family = af_inet; mask = no_mask; addrstr = some s; maskstr = none })

-- input eth0 { source 10.0.0.1; ! source 192.0.2.7 } accept;
abbrev policy : Filter
policy =
    ptr
      (leaf (direction input (codes "eth0")) line (
        ptr
          (siblings
            (ptr (leaf (from (codes "10.0.0.1")) line null)
              (ptr (neg (ptr (leaf (from (codes "192.0.2.7")) line null) null) line null) null))
            line (ptr (leaf (target t_accept) line null) null))
          null))
      null

policy-IsNegatable : IsNegatable policy
policy-IsNegatable = (((tt, (tt, tt, tt)), (tt, tt), tt), tt)

policy-IsSteady : IsSteady policy
policy-IsSteady = (refl, ((refl, tt, tt), tt), tt)

policy-IsPlain : IsPlain policy
policy-IsPlain = (((tt, ((tt, tt), tt, tt)), (tt, tt), tt), tt)

fg_iptables-trails_example :
    (f' : Filter) × (Iptables.fg_iptables_common iptables af_inet policy plain_flags []
      ≡ ok (
          Iptables.finish iptables plain_flags (
            run_trails
              (cb_iptables iptables af_inet plain_flags)
              (trails f')
              zero_ent
              (Iptables.started iptables af_inet plain_flags []))))
    × ((v : Leaf → Bool) → selects v (trails f') ≡ meant v policy)
fg_iptables-trails_example =
    fg_iptables-trails policy policy-IsNegatable policy-IsSteady policy-IsPlain iptables af_inet
      plain_flags []

fg_iptrestore-trails_example :
    (f' : Filter) × (Restore.fg_iptrestore_common
        (codes "/sbin/iptables-restore")
        af_inet
        policy
        plain_flags
        []
      ≡ ok (
          Restore.finish plain_flags (
            run_trails
              (cb_iptrestore af_inet plain_flags)
              (trails f')
              zero_ent
              (Restore.started (codes "/sbin/iptables-restore") plain_flags []))))
    × ((v : Leaf → Bool) → selects v (trails f') ≡ meant v policy)
fg_iptrestore-trails_example =
    fg_iptrestore-trails policy policy-IsNegatable policy-IsSteady policy-IsPlain
      (codes "/sbin/iptables-restore") af_inet plain_flags []

fg_ipchains-trails_example :
    (f' : Filter) × (fg_ipchains (codes "(null)") policy plain_flags []
      ≡ ok (
          run_trails
            (cb_ipchains (codes "(null)") plain_flags)
            (trails f')
            zero_ent
            ([] ++ optional true skeleton)))
    × ((v : Leaf → Bool) → selects v (trails f') ≡ meant v policy)
fg_ipchains-trails_example =
    fg_ipchains-trails policy policy-IsNegatable policy-IsSteady policy-IsPlain (codes "(null)")
      plain_flags []

-- input eth0 [ "web" { source 10.0.0.1; ! source 192.0.2.7 } accept ];
abbrev grouped_policy : Filter
grouped_policy =
    ptr
      (leaf (direction input (codes "eth0")) line (
        ptr
          (subgroup (codes "web")
            (ptr
              (siblings
                (ptr (leaf (from (codes "10.0.0.1")) line null)
                  (ptr (neg (ptr (leaf (from (codes "192.0.2.7")) line null) null) line null) null))
                line (ptr (leaf (target t_accept) line null) null))
              null)
            line null)
          null))
      null

-- The same, unrolled: the target stands behind each of the two sources.
abbrev unrolled : Filter
unrolled =
    ptr
      (leaf (direction input (codes "eth0")) line (
        ptr
          (subgroup (codes "web")
            (ptr
              (siblings
                (ptr
                  (leaf (from (codes "10.0.0.1")) line
                    (ptr (leaf (target t_accept) line null) null))
                  (ptr
                    (leaf (from (codes "192.0.2.7")) (record line { negate = true })
                      (ptr (leaf (target t_accept) line null) null))
                    null))
                line null)
              null)
            line null)
          null))
      null

fg_iptables_groups-trails_example :
    (Iptables.fg_iptables_common iptables af_inet grouped_policy plain_flags []
      ≡ ok (
          Iptables.finish iptables plain_flags (
            run_trails
              (cb_iptables iptables af_inet plain_flags)
              (trails unrolled)
              zero_ent
              (Iptables.started iptables af_inet plain_flags []))))
    × ((v : Leaf → Bool) → selects v (trails unrolled) ≡ meant v grouped_policy)
unfolding filter_unroll filter_neg_expand filter_unroll_tree filter_targets_to_end filter_append
    append_each
fg_iptables_groups-trails_example =
    fg_iptables_groups-trails iptables af_inet plain_flags [] grouped_policy unrolled
      ((((tt, (tt, tt, tt)), (tt, tt), tt), tt, tt), tt) (refl, (tt, tt), tt) refl
      (((((tt, tt), ((tt, tt), tt)), tt), tt, tt), tt)
