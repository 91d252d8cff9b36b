-- ===== src/Output/ChainTests.antt =====
-- Entries and rules written out, and the theorems on the back ends with chains at them.
use filtergen.Base.{true, false, ◌≡◌, refl, some, [], ◌∷◌, ◌++◌, List, Text, codes, length}
use filtergen.Base.Outcome.{Outcome, ok, fault}
use filtergen.Filter.Types.{input, t_accept, af_inet}
use filtergen.Filter.Tree.{Filter, null, ptr, Head, leaf, direction, target}
use filtergen.Filter.Targets.{filter_unroll, filter_targets_to_end}
use filtergen.Filter.Negation.{filter_neg_expand}
use filtergen.Filter.Unroll.{filter_unroll_tree}
use filtergen.Gen.Entry.{FilterEnt, zero_ent, Flags, Count, failed}
use filtergen.Gen.Apply.{filtergen_cprod}
use filtergen.Gen.Apply.Counting.{Counted}
use filtergen.Output.Strapp.{Written}
use filtergen.Output.Lines.{All}
use filtergen.Output.Iptables as Iptables
use filtergen.Output.Iptables.{cb_iptables, iptables_rule_common, iptables, ip6tables}
use filtergen.Output.Iptables.Choice.{Made}
use filtergen.Output.Iptables.Skeleton.{no_features, fg_ip6tables, fg_iptables_common}
use filtergen.Output.Iptables.Rules.{commands_of, iptables-Counted}
use filtergen.Output.Iptables.Amounts.{WritesAsMuch, iptables_rule_few}
use filtergen.Output.Iptables.Nat.{IsNatFree, fg_ip6tables-IsNatFree}
use filtergen.Output.Restore.{iptrestore_rule_common, rule_line}
use filtergen.Output.Restore.Agrees.{SameRules, restore_agrees}
use filtergen.Output.Restore.Drops.{dropped_on_input, dropped_input_forwarded}
use filtergen.Output.Ipchains.{cb_ipchains}
use filtergen.Output.Ipchains.Rules.{ipchains-Counted}

abbrev stateful : Flags
stateful = record {
  noskel = false;
  lstate = true;
  local = false;
  route = false;
  noresolve = false;
  flush = false;
}

abbrev line : Head
line = record { negate = false; pos = 1 }

-- input eth0 accept;
abbrev policy : Filter
policy =
    ptr (leaf (direction input (codes "eth0")) line (ptr (leaf (target t_accept) line null) null))
      null

abbrev entry : FilterEnt
entry = record zero_ent { direction = input; iface = some (codes "eth0"); target = t_accept }

abbrev nothing_made : Made
nothing_made = record { written = []; feat = no_features }

iptables-Counted_example : Counted commands_of nothing_made (
    filtergen_cprod
      (cb_iptables (b'/' ∷ codes "sbin/iptables") af_inet stateful)
      policy
      nothing_made)
iptables-Counted_example =
    iptables-Counted (codes "sbin/iptables") af_inet stateful policy nothing_made ((tt, tt), tt)

iptables_rule_few_example :
    WritesAsMuch stateful entry 0
      (iptables_rule_common iptables af_inet stateful entry nothing_made)
iptables_rule_few_example = iptables_rule_few iptables af_inet stateful entry nothing_made

abbrev what_returned : Outcome (Written × Count) → Written × Count
what_returned (ok r) = r
what_returned (fault e) = ([], failed)

abbrev ipv6 : Written × Count
ipv6 = what_returned (fg_ip6tables policy stateful [])

fg_ip6tables-IsNatFree_example : All IsNatFree ipv6.0
unfolding fg_iptables_common filter_unroll filter_neg_expand filter_unroll_tree
    filter_targets_to_end
fg_ip6tables-IsNatFree_example = fg_ip6tables-IsNatFree policy stateful [] ipv6.0 ipv6.1 tt refl

restore_agrees_example :
    SameRules iptables
      (iptables_rule_common iptables af_inet stateful entry nothing_made)
      (iptrestore_rule_common af_inet stateful entry nothing_made)
restore_agrees_example = restore_agrees iptables af_inet stateful entry refl refl refl no_features

dropped_input_forwarded_example :
    (text : Text) × (logs logs' : List Text) × ((iptables_rule_common iptables af_inet stateful
        (dropped_on_input entry)
        nothing_made).0.written
      ≡ ([] ++ logs)
        ++ Iptables.rule_line iptables (codes " -A ") [] (codes "INPUT") text [] (codes "DROP")
          ∷ Iptables.rule_line iptables
              (codes " -A ")
              []
              (codes "FORWARD")
              text
              []
              (codes "FORW_OUT")
          ∷ [])
    × ((iptrestore_rule_common af_inet stateful (dropped_on_input entry) nothing_made).0.written
        ≡ []
          ++ (logs'
              ++ rule_line (codes "-A ") [] (codes "INPUT") text [] (codes "DROP")
                ∷ rule_line (codes "-A ") [] (codes "FORWARD") text [] (codes "DROP")
                ∷ []))
dropped_input_forwarded_example =
    dropped_input_forwarded iptables af_inet stateful entry nothing_made

ipchains-Counted_example :
    Counted length [] (filtergen_cprod (cb_ipchains (codes "(null)") stateful) policy [])
ipchains-Counted_example = ipchains-Counted (codes "(null)") stateful policy [] ((tt, tt), tt)
