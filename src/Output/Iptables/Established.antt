-- ===== src/Output/Iptables/Established.antt =====
-- The rules for established connections behind the rules of an iptables policy.
use filtergen.Base.{true, false, Text, ◌++◌, ◌≡◌, refl}
use filtergen.Filter.Types.{input, t_reject, Family}
use filtergen.Gen.Entry.{FilterEnt, Flags}
use filtergen.Output.Iptables.{iptables_rule_common}
use filtergen.Output.Iptables.Choice.{Made}
use filtergen.Output.Iptables.Skeleton.{finish, established}

-- The entry, as a rule that rejects on input.
abbrev pub rejecting : FilterEnt → FilterEnt
rejecting ent = record ent { direction = input; target = t_reject }

-- Where the state of local connections is left to general rules: after an entry that rejects on
-- input, whatever its protocol and whatever was noted before, TCP counts as accepted, and the rules
-- for established connections are written.
pub reject_notes_tcp :
    (prog : Text) (family : Family) (flags : Flags) (ent : FilterEnt) (made : Made)
    → flags.noskel ≡ false
    → flags.lstate ≡ true
    → ((iptables_rule_common prog family flags (rejecting ent) made).0.feat.tcp ≡ true)
      × ((finish prog flags (iptables_rule_common prog family flags (rejecting ent) made)).0
          ≡ (iptables_rule_common prog family flags (rejecting ent) made).0.written
            ++ established prog
                (iptables_rule_common prog family flags (rejecting ent) made).0.feat)
unfolding iptables_rule_common
reject_notes_tcp prog family flags ent made n l = (refl, rw (n, l) refl)
