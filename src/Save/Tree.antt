-- ===== src/Save/Tree.antt =====
-- input/iptables-save/ast.h: the syntax tree of a file of iptables-save.
use filtergen.Base.{Bool, Option, Text}

pub record PktCount : Type 0 where
  pub packets_in : Option Text
  pub packets_out : Option Text

pub record Identifier : Type 0 where
  pub string : Option Text

pub record NotIdentifier : Type 0 where
  pub neg : Bool
  pub identifier : Option Identifier

pub record Range : Type 0 where
  pub start : Option Identifier
  pub end : Option Identifier

pub record NotRange : Type 0 where
  pub neg : Bool
  pub range : Option Range

-- The members of `struct option_s` that hold the same, but for the two that are converted.
pub data NegatableOption : Type 0 where
  destination_option source_option out_interface_option : NegatableOption

pub data PortOption : Type 0 where
  dport_option sport_option : PortOption

pub data PlainOption : Type 0 where
  protocol_option match_option to_ports_option to_source_option state_option : PlainOption
  limit_option log_prefix_option uid_owner_option reject_with_option : PlainOption
  icmp_type_option helper_option : PlainOption

pub data BareOption : Type 0 where
  fragment_option clamp_mss_to_pmtu_option syn_option : BareOption

-- `struct option_s` is one of twenty-two pointers, and null pointers for the others.
pub data IptsOption : Type 0 where
  in_interface_option : Option NotIdentifier → IptsOption
  jump_option : Option Identifier → IptsOption
  negatable_option : NegatableOption → Option NotIdentifier → IptsOption
  port_option : PortOption → Option NotRange → Option NotIdentifier → IptsOption
  plain_option : PlainOption → Option Identifier → IptsOption
  tcp_flags_option : Option Identifier → Option Identifier → IptsOption
  bare_option : BareOption → IptsOption
  no_option : IptsOption

pub record NotOption : Type 0 where
  pub neg : Bool
  pub option : Option IptsOption

-- The lists: first what stands before, null at the first.
pub data OptionList : Type 0 where
  no_options : OptionList
  option_list : OptionList → NotOption → OptionList

pub record IptsRule : Type 0 where
  pub chain : Text
  pub policy : Option Text
  pub pkt_count : Option PktCount
  pub option_list : OptionList

pub data IptsRuleList : Type 0 where
  no_ipts_rules : IptsRuleList
  rule_list : IptsRuleList → IptsRule → IptsRuleList

pub record Table : Type 0 where
  pub name : Text
  pub rule_list : IptsRuleList

-- `struct table_list_s`, and `struct ast_s`, which holds one.
pub data TableList : Type 0 where
  no_tables : TableList
  table_list : TableList → Table → TableList
