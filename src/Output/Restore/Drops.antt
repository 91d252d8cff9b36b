-- ===== src/Output/Restore/Drops.antt =====
-- What becomes of forwarded packets that a rule on input refuses, in the two back ends for iptables.
use filtergen.Base.{List, [], ◌∷◌, ◌++◌, Text, none, codes, ◌≡◌, refl}
use filtergen.Filter.Types.{yyeof, input, drop, Family}
use filtergen.Gen.Entry.{FilterEnt, Flags}
use filtergen.Output.Iptables as Iptables
use filtergen.Output.Iptables.{iptables_rule_common}
use filtergen.Output.Iptables.Choice.{Made}
use filtergen.Output.Restore.{iptrestore_rule_common, rule_line}

-- The entry, as a rule that drops on input, in no group.
abbrev pub dropped_on_input : FilterEnt → FilterEnt
dropped_on_input ent = record ent {
  direction = input;
  target = drop;
  rtype = yyeof;
  groupname = none;
}

-- A rule that drops on input, neither local nor routed, in no group: both back ends write a rule in
-- INPUT that drops and a rule in FORWARD with the same condition. That of iptables-restore drops as
-- well, but that of iptables hands the packet on to the chain FORW_OUT.
pub dropped_input_forwarded :
    (prog : Text) (family : Family) (flags : Flags) (ent : FilterEnt) (made : Made)
    → (text : Text) × (logs logs' : List Text) × ((iptables_rule_common prog family flags
          (dropped_on_input ent)
          made).0.written
        ≡ (made.written ++ logs)
          ++ Iptables.rule_line prog (codes " -A ") [] (codes "INPUT") text [] (codes "DROP")
            ∷ Iptables.rule_line prog (codes " -A ") [] (codes "FORWARD") text [] (codes "FORW_OUT")
            ∷ [])
      × ((iptrestore_rule_common family flags (dropped_on_input ent) made).0.written
          ≡ made.written
            ++ (logs'
                ++ rule_line (codes "-A ") [] (codes "INPUT") text [] (codes "DROP")
                  ∷ rule_line (codes "-A ") [] (codes "FORWARD") text [] (codes "DROP")
                  ∷ []))
unfolding iptables_rule_common iptrestore_rule_common
dropped_input_forwarded prog family flags ent made = (_, _, _, refl, refl)
