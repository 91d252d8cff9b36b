-- ===== src/Glue/Built.antt =====
-- glue.c: the trees that `convert` builds.
use filtergen.Base.{ℕ, Option, none, some, Text}
use filtergen.Filter.Types.{FilterType, f_proto, Family, AddrSpec}
use filtergen.Base.Int.{ℤ}
use filtergen.Filter.Build.{Libc, host_node, proto_node, new_filter_target}
use filtergen.Glue.Ast.{
  Token, tok_local, tok_forward, tok_oneway, tok_log, TextArgument, HostArgument, PortArgument,
  Specifier, compound, direction, target, host, protocol, port, icmptype, option, chaingroup,
  nothing, NegatedSpecifier, no_specifier, specifier, SpecifierList, no_specifiers, specifiers,
  SubruleList, no_subrules, subrules, Rule, no_rule, rule, RuleList, no_rules, rules, Ast,
}
use filtergen.Glue.Arguments.{
  convert_direction_argument, direction_type, host_type, port_type, convert_direction,
  convert_host_argument, convert_host_specifier, convert_protocol_argument,
  convert_protocol_specifier, convert_port_argument, convert_port_specifier,
  convert_icmptype_argument, convert_icmptype_specifier, convert_option_specifier,
}
use filtergen.Glue.Convert.{
  group_name, target_type, convert_specifier, convert_negated_specifier, convert_specifier_list,
  convert_subrule_list, convert_rule, convert_rule_list, convert,
}
use filtergen.Glue.Full.{
  IsFull, set_pos-IsFull, extended-IsFull, deepened-IsFull, rules_joined-IsFull, when_given-IsFull,
  negated_if-IsFull, siblings-IsFull, subgroup-IsFull, given-IsFull, arguments-IsFull,
}

direction-IsFull : (t : FilterType) (n : TextArgument) → IsFull (convert_direction_argument t n)
unfolding convert_direction_argument
direction-IsFull t n = set_pos-IsFull n.pos _ (given-IsFull _ n.content λ d. (tt, tt))

icmptype-IsFull : (n : TextArgument) → IsFull (convert_icmptype_argument n)
unfolding convert_icmptype_argument
icmptype-IsFull n = set_pos-IsFull n.pos _ (given-IsFull _ n.content λ d. (tt, tt))

target-IsFull : (t : FilterType) (p : ℕ) → IsFull (new_filter_target t p)
unfolding new_filter_target
target-IsFull t p = (tt, tt)

option-IsFull : (t : Token) (m : Option Text) (p : ℕ) → IsFull (convert_option_specifier t m p)
unfolding convert_option_specifier
option-IsFull tok_local m p = (tt, tt)
option-IsFull tok_forward m p = (tt, tt)
option-IsFull tok_oneway m p = (tt, tt)
option-IsFull tok_log m p = (tt, tt)
option-IsFull _ m p = tt

host_node-IsFull : (t : FilterType) (p : ℕ) (a : Option AddrSpec) → IsFull (host_node t p a)
host_node-IsFull t p none = tt
host_node-IsFull t p (some a) = (tt, tt)

proto_node-IsFull : (t : FilterType) (p : ℕ) (e : Option (ℤ × Text)) → IsFull (proto_node t p e)
proto_node-IsFull t p none = tt
proto_node-IsFull t p (some e) = (tt, tt)

module _ (libc : Libc) where
  host-IsFull :
      (family : Family) (t : FilterType) (n : HostArgument)
      → IsFull (convert_host_argument libc family t n)
  unfolding convert_host_argument
  host-IsFull family t n =
      set_pos-IsFull n.pos _ (given-IsFull _ n.host λ h. host_node-IsFull t n.pos _)

  protocol-IsFull : (n : TextArgument) → IsFull (convert_protocol_argument libc n)
  unfolding convert_protocol_argument
  protocol-IsFull n =
      set_pos-IsFull n.pos _ (given-IsFull _ n.content λ s. proto_node-IsFull f_proto n.pos _)

  port-IsFull : (t : FilterType) (n : PortArgument) → IsFull (convert_port_argument libc t n)
  unfolding convert_port_argument
  port-IsFull t n = set_pos-IsFull n.pos _ (given-IsFull _ n.port_min λ s. (tt, tt))

  module _ (family : Family) where
    mutual
      unfolding convert_specifier convert_direction convert_host_specifier
          convert_protocol_specifier convert_port_specifier convert_icmptype_specifier

      specifier-IsFull :
          (s : Specifier) (count : ℕ) → IsFull (convert_specifier libc family s count).0
      specifier-IsFull (compound list q p) count =
          set_pos-IsFull p _
            (set_pos-IsFull q _ (siblings-IsFull _ (subrule_list-IsFull list count)))
      specifier-IsFull (direction type list q p) count =
          set_pos-IsFull p _ (arguments-IsFull _ (direction-IsFull (direction_type type)) list q)
      specifier-IsFull (target type p) count = target-IsFull (target_type type) p
      specifier-IsFull (host type list q p) count =
          set_pos-IsFull p _ (arguments-IsFull _ (host-IsFull family (host_type type)) list q)
      specifier-IsFull (protocol list q p) count =
          set_pos-IsFull p _ (arguments-IsFull _ protocol-IsFull list q)
      specifier-IsFull (port type list q p) count =
          set_pos-IsFull p _ (arguments-IsFull _ (port-IsFull (port_type type)) list q)
      specifier-IsFull (icmptype list q p) count =
          set_pos-IsFull p _ (arguments-IsFull _ icmptype-IsFull list q)
      specifier-IsFull (option type m q p) count = set_pos-IsFull p _ (option-IsFull type m q)
      specifier-IsFull (chaingroup name list q p) count = set_pos-IsFull p _ (
          set_pos-IsFull q _ (
            subgroup-IsFull (group_name libc name count).0 _
              (subrule_list-IsFull list (group_name libc name count).1)))
      specifier-IsFull (nothing p) count = tt

      negated-IsFull :
          (s : NegatedSpecifier) (count : ℕ)
          → IsFull (convert_negated_specifier libc family s count).0
      negated-IsFull no_specifier count = tt
      negated-IsFull (specifier negated spec p) count =
          set_pos-IsFull p _ (negated_if-IsFull negated _ (specifier-IsFull spec count))

      specifier_list-IsFull :
          (list : SpecifierList) (count : ℕ)
          → IsFull (convert_specifier_list libc family list count).0
      specifier_list-IsFull no_specifiers count = tt
      specifier_list-IsFull (specifiers no_specifiers spec p) count =
          set_pos-IsFull p _ (negated-IsFull spec count)
      specifier_list-IsFull (specifiers (specifiers list s q) spec p) count =
          let before = convert_specifier_list libc family (specifiers list s q) count in
          set_pos-IsFull p _ (
            deepened-IsFull before.0 _ (specifier_list-IsFull (specifiers list s q) count)
              (when_given-IsFull before.0 _ before.1 (negated-IsFull spec before.1)))

      subrule_list-IsFull :
          (list : SubruleList) (count : ℕ) → IsFull (convert_subrule_list libc family list count).0
      subrule_list-IsFull no_subrules count = tt
      subrule_list-IsFull (subrules no_subrules list p) count =
          set_pos-IsFull p _ (specifier_list-IsFull list count)
      subrule_list-IsFull (subrules (subrules before l q) list p) count =
          let first = convert_subrule_list libc family (subrules before l q) count in
          set_pos-IsFull p _ (
            extended-IsFull first.0 _ (subrule_list-IsFull (subrules before l q) count)
              (when_given-IsFull first.0 _ first.1 (specifier_list-IsFull list first.1)))

    rule-IsFull : (r : Rule) (count : ℕ) → IsFull (convert_rule libc family r count).0
    unfolding convert_rule
    rule-IsFull no_rule count = tt
    rule-IsFull (rule list p) count = set_pos-IsFull p _ (specifier_list-IsFull list count)

    rule_list-IsFull : (l : RuleList) (count : ℕ) → IsFull (convert_rule_list libc family l count).0
    unfolding convert_rule_list
    rule_list-IsFull no_rules count = tt
    rule_list-IsFull (rules list r p) count =
        let before = convert_rule_list libc family list count in
        set_pos-IsFull p _
          (rules_joined-IsFull before.0 _ (rule_list-IsFull list count) (rule-IsFull r before.1))

    -- For every syntax tree, whatever is missing in it and whatever could not be converted: the
    -- tree that `convert` returns has no negation without an operand, no empty list of siblings
    -- and no empty subgroup.
    pub convert-IsFull : (ast : Ast) (count : ℕ) → IsFull (convert libc family ast count).0
    unfolding convert
    convert-IsFull ast count =
        set_pos-IsFull (Ast.pos ast) _ (rule_list-IsFull (Ast.list ast) count)
