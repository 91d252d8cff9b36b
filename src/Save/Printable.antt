-- ===== src/Save/Printable.antt =====
-- The trees of iptables-save files that t/emit.c prints as such files: their strings are words that are
-- no options, and have no spaces; an option has its arguments, and a rule has options or declares a
-- policy.
use filtergen.Base.{Option, none, some, Text}
use filtergen.Syntax.Printable.{IsSome, IsIfAny}
use filtergen.Save.Tree.{
  PktCount, Identifier, NotIdentifier, Range, NotRange, IptsOption, in_interface_option,
  jump_option, negatable_option, port_option, plain_option, tcp_flags_option, bare_option,
  no_option, NotOption, OptionList, no_options, option_list, IptsRule, IptsRuleList, no_ipts_rules,
  rule_list, Table, TableList, no_tables, table_list,
}
use filtergen.Save.Words.{IsSaveName}

abbrev pub IsNamed : Identifier → Type 0
IsNamed i = IsSome IsSaveName i.string

abbrev pub IsNamedNot : NotIdentifier → Type 0
IsNamedNot n = IsSome IsNamed n.identifier

-- At least one end.
abbrev pub AreEnds : Option Identifier → Option Identifier → Type 0
AreEnds none none = ⊥
AreEnds (some i) none = IsNamed i
AreEnds none (some j) = IsNamed j
AreEnds (some i) (some j) = IsNamed i × IsNamed j

abbrev pub IsRange : Range → Type 0
IsRange r = AreEnds r.start r.end

abbrev pub IsRangeNot : NotRange → Type 0
IsRangeNot n = IsSome IsRange n.range

-- A range or a port, not both.
abbrev pub IsPort : Option NotRange → Option NotIdentifier → Type 0
IsPort (some r) none = IsRangeNot r
IsPort none (some n) = IsNamedNot n
IsPort _ _ = ⊥

abbrev pub IsOption : IptsOption → Type 0
IsOption (in_interface_option n) = IsSome IsNamedNot n
IsOption (jump_option i) = IsSome IsNamed i
IsOption (negatable_option o n) = IsSome IsNamedNot n
IsOption (port_option o r n) = IsPort r n
IsOption (plain_option o i) = IsSome IsNamed i
IsOption (tcp_flags_option flags mask) = IsSome IsNamed flags × IsSome IsNamed mask
IsOption (bare_option o) = Unit {0}
IsOption no_option = ⊥

abbrev pub IsOptionNot : NotOption → Type 0
IsOptionNot n = IsSome IsOption n.option

unfoldable pub AreOptions : OptionList → Type 0
AreOptions no_options = Unit {0}
AreOptions (option_list l n) = AreOptions l × IsOptionNot n

abbrev pub AreCounts : PktCount → Type 0
AreCounts n = IsSome IsSaveName n.packets_in × IsSome IsSaveName n.packets_out

-- A policy with its counters, or options.
unfoldable pub IsDeclared : OptionList → Option Text → Option PktCount → Type 0
unfolding AreOptions
IsDeclared no_options (some policy) (some counts) = IsSaveName policy × AreCounts counts
IsDeclared no_options _ _ = ⊥
IsDeclared (option_list l n) none counts = AreOptions (option_list l n) × IsIfAny AreCounts counts
IsDeclared (option_list l n) (some policy) counts = ⊥

unfoldable pub IsIptsRule : IptsRule → Type 0
unfolding IsDeclared
IsIptsRule n = IsSaveName n.chain × IsDeclared n.option_list n.policy n.pkt_count

unfoldable pub AreIptsRules : IptsRuleList → Type 0
unfolding IsDeclared
AreIptsRules no_ipts_rules = Unit {0}
AreIptsRules (rule_list l n) = AreIptsRules l × IsIptsRule n

unfoldable pub IsTable : Table → Type 0
unfolding AreIptsRules
IsTable t = IsSaveName t.name × AreIptsRules t.rule_list

unfoldable pub AreTables : TableList → Type 0
unfolding IsTable
AreTables no_tables = Unit {0}
AreTables (table_list l t) = AreTables l × IsTable t
