-- ===== src/Output/Restore/Bounds.antt =====
-- How many rules `cb_iptrestore_rule_common` writes for one entry.
use filtergen.Base.{Bool, true, false, not, Option, none, some, [], if◌then◌else◌}
use filtergen.Filter.Types.{routedonly, localonly, f_log, Family, tag_eq}
use filtergen.Gen.Entry.{FilterEnt, Flags, failed}
use filtergen.Gen.Apply.Counts.{IsProductive}
use filtergen.Output.Iptables.{need_nat}
use filtergen.Output.Iptables.Choice.{Made, Chains, Targets}
use filtergen.Output.Iptables.Bounds.{IsFewRules, lengths, no_place, few_not_zero}
use filtergen.Output.Restore.{
  chains_of, targets_of, nat_refused, need_ret, log_lines, filter_lines, put_targets, put_chains,
  iptrestore_rule_common, cb_iptrestore,
}

module _ (family : Family) (flags : Flags) (ent : FilterEnt) where
  targets_few :
      (ch : Chains) (to : Option Targets) (made : Made)
      → IsFewRules (put_targets flags ent ch to made).1
  unfolding log_lines filter_lines
  targets_few ch none made = tt
  targets_few ch (some to) made =
      lengths (ent.whats_set f_log) (need_nat ent.target) (not (tag_eq ent.rtype routedonly))
        (need_ret flags ent) (not (tag_eq ent.rtype localonly)) _ _ [] _ _ _ _ (no_place ent.rtype)

  chains_few : (ch : Option Chains) (made : Made) → IsFewRules (put_chains flags ent ch made).1
  chains_few none made = tt
  chains_few (some ch) made = targets_few ch (targets_of ent.target ent.direction) _

  refused_few :
      (b : Bool) (made : Made)
      → IsFewRules
          (if b then (made, failed) else put_chains flags ent (chains_of ent.direction) made).1
  refused_few true made = tt
  refused_few false made = chains_few (chains_of ent.direction) made

  pub iptrestore_rule_few :
      (made : Made) → IsFewRules (iptrestore_rule_common family flags ent made).1
  unfolding iptrestore_rule_common
  iptrestore_rule_few made = refused_few (nat_refused family ent.target ent.direction) made

-- It writes a rule for each entry, or fails.
pub cb_iptrestore-IsProductive :
    (family : Family) (flags : Flags) → IsProductive (cb_iptrestore family flags)
cb_iptrestore-IsProductive family flags e s = few_not_zero _ (iptrestore_rule_few family flags e s)
