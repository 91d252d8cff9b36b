-- ===== src/Save/Printer.antt =====
-- input/iptables-save/t/emit.c: a syntax tree as text. Each function takes what is printed behind its
-- own text. The traces are left out.
use filtergen.Base.{Bool, true, false, Option, none, some, Text, [], ◌∷◌, ◌++◌, codes, ◌||◌, ◌==◌}
use filtergen.Save.Tree.{
  PktCount, Identifier, NotIdentifier, Range, NotRange, NegatableOption, destination_option,
  source_option, out_interface_option, PortOption, dport_option, sport_option, PlainOption,
  protocol_option, match_option, to_ports_option, to_source_option, state_option, limit_option,
  log_prefix_option, uid_owner_option, reject_with_option, icmp_type_option, helper_option,
  BareOption, fragment_option, clamp_mss_to_pmtu_option, syn_option, IptsOption,
  in_interface_option, jump_option, negatable_option, port_option, plain_option, tcp_flags_option,
  bare_option, no_option, NotOption, OptionList, no_options, option_list, IptsRule, IptsRuleList,
  no_ipts_rules, rule_list, Table, TableList, no_tables, table_list,
}

-- What is printed of a pointer that may be null.
abbrev pub emit_if_set : {A : Type 0} → (A → Text → Text) → Option A → Text → Text
emit_if_set emit none k = k
emit_if_set emit (some a) k = emit a k

abbrev pub emit_string : Text → Text → Text
emit_string s k = s ++ k

abbrev pub emit_bang : Bool → Text → Text
emit_bang true k = codes "! " ++ k
emit_bang false k = k

abbrev pub emit_pkt_count : PktCount → Text → Text
emit_pkt_count n k =
    b'['
    ∷ emit_if_set emit_string n.packets_in (b':' ∷ emit_if_set emit_string n.packets_out (b']' ∷ k))

-- `strstr(n->string, " ")`.
abbrev pub has_space : Text → Bool
has_space [] = false
has_space (c ∷ s) = c == b' ' || has_space s

abbrev pub emit_quote : Bool → Text → Text
emit_quote true k = b'"' ∷ k
emit_quote false k = k

abbrev pub emit_spaced : Text → Text → Text
emit_spaced s k = emit_quote (has_space s) (s ++ emit_quote (has_space s) k)

abbrev pub emit_identifier : Identifier → Text → Text
emit_identifier n k = emit_if_set emit_spaced n.string k

abbrev pub emit_not_identifier : NotIdentifier → Text → Text
emit_not_identifier n k = emit_bang n.neg (emit_if_set emit_identifier n.identifier k)

abbrev pub emit_range : Range → Text → Text
emit_range n k = emit_if_set emit_identifier n.start (b':' ∷ emit_if_set emit_identifier n.end k)

abbrev pub emit_not_range : NotRange → Text → Text
emit_not_range n k = emit_bang n.neg (emit_if_set emit_range n.range k)

-- An option's word with its argument, and nothing without an argument.
abbrev pub emit_worded : {A : Type 0} → Text → (A → Text → Text) → Option A → Text → Text
emit_worded word emit none k = k
emit_worded word emit (some a) k = word ++ emit a k

abbrev pub negatable_word : NegatableOption → Text
negatable_word destination_option = codes "-d "
negatable_word source_option = codes "-s "
negatable_word out_interface_option = codes "-o "

abbrev pub port_word : PortOption → Text
port_word dport_option = codes "--dport "
port_word sport_option = codes "--sport "

abbrev pub plain_word : PlainOption → Text
plain_word protocol_option = codes "-p "
plain_word match_option = codes "-m "
plain_word to_ports_option = codes "--to-ports "
plain_word to_source_option = codes "--to-source "
plain_word state_option = codes "--state "
plain_word limit_option = codes "--limit "
plain_word log_prefix_option = codes "--log-prefix "
plain_word uid_owner_option = codes "--uid-owner "
plain_word reject_with_option = codes "--reject-with "
plain_word icmp_type_option = codes "--icmp-type "
plain_word helper_option = codes "--helper "

abbrev pub bare_word : BareOption → Text
bare_word fragment_option = codes "-f"
bare_word clamp_mss_to_pmtu_option = codes "--clamp-mss-to-pmtu"
bare_word syn_option = codes "--syn"

abbrev pub emit_port : Text → Option NotRange → Option NotIdentifier → Text → Text
emit_port word (some r) n k = word ++ emit_not_range r k
emit_port word none n k = emit_worded word emit_not_identifier n k

abbrev pub emit_mask : Option Identifier → Text → Text
emit_mask none k = k
emit_mask (some m) k = b' ' ∷ emit_identifier m k

abbrev pub emit_tcp_flags : Option Identifier → Option Identifier → Text → Text
emit_tcp_flags none mask k = k
emit_tcp_flags (some flags) mask k =
    codes "--tcp-flags " ++ emit_identifier flags (emit_mask mask k)

abbrev pub emit_option : IptsOption → Text → Text
emit_option (in_interface_option n) k = emit_worded (codes "-i ") emit_not_identifier n k
emit_option (jump_option i) k = emit_worded (codes "-j ") emit_identifier i k
emit_option (negatable_option o n) k = emit_worded (negatable_word o) emit_not_identifier n k
emit_option (port_option o r n) k = emit_port (port_word o) r n k
emit_option (plain_option o i) k = emit_worded (plain_word o) emit_identifier i k
emit_option (tcp_flags_option flags mask) k = emit_tcp_flags flags mask k
emit_option (bare_option o) k = bare_word o ++ k
emit_option no_option k = k

abbrev pub emit_not_option : NotOption → Text → Text
emit_not_option n k = emit_bang n.neg (emit_if_set emit_option n.option k)

abbrev pub option_gap : OptionList → Text → Text
option_gap no_options k = k
option_gap (option_list l n) k = b' ' ∷ k

unfoldable pub emit_option_list : OptionList → Text → Text
emit_option_list no_options k = k
emit_option_list (option_list l n) k = emit_option_list l (option_gap l (emit_not_option n k))

abbrev pub emit_counts_before : Option PktCount → Text → Text
emit_counts_before none k = k
emit_counts_before (some n) k = emit_pkt_count n (b' ' ∷ k)

abbrev pub emit_behind_space : {A : Type 0} → (A → Text → Text) → Option A → Text → Text
emit_behind_space emit none k = k
emit_behind_space emit (some a) k = b' ' ∷ emit a k

-- A rule without options is printed as a chain, with the policy that it has, if any.
unfoldable pub emit_by_options : OptionList → Text → Option Text → Option PktCount → Text → Text
unfolding emit_option_list
emit_by_options no_options chain policy counts k =
    b':'
    ∷ (chain ++ emit_behind_space emit_string policy (emit_behind_space emit_pkt_count counts k))
emit_by_options (option_list l n) chain policy counts k =
    emit_counts_before counts
      (codes "-A " ++ (chain ++ b' ' ∷ emit_option_list (option_list l n) k))

unfoldable pub emit_ipts_rule : IptsRule → Text → Text
unfolding emit_by_options
emit_ipts_rule n k = emit_by_options n.option_list n.chain n.policy n.pkt_count (b'\n' ∷ k)

unfoldable pub emit_ipts_rule_list : IptsRuleList → Text → Text
unfolding emit_ipts_rule
emit_ipts_rule_list no_ipts_rules k = k
emit_ipts_rule_list (rule_list l n) k = emit_ipts_rule_list l (emit_ipts_rule n k)

unfoldable pub emit_table : Table → Text → Text
unfolding emit_ipts_rule_list
emit_table t k = b'*' ∷ (t.name ++ b'\n' ∷ emit_ipts_rule_list t.rule_list (codes "COMMIT\n" ++ k))

unfoldable pub emit_table_list : TableList → Text → Text
unfolding emit_table
emit_table_list no_tables k = k
emit_table_list (table_list l t) k = emit_table_list l (emit_table t k)

-- `emit_ast`.
unfoldable pub emit_tables : TableList → Text
unfolding emit_table_list
emit_tables l = emit_table_list l []
