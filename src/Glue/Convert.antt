-- ===== src/Glue/Convert.antt =====
-- glue.c, the conversions that call one another, and `convert`.
use filtergen.Base.{ℕ, ◌+◌, Bool, true, false, Option, none, some, Text, ◌++◌, codes}
use filtergen.Base.Int.{pos}
use filtergen.Filter.Types.{FilterType, yyeof, t_accept, t_reject, drop, masq, redirect, Family}
use filtergen.Filter.Tree.{Filter, null, ptr}
use filtergen.Filter.Build.{
  Libc, new_filter_target, new_filter_neg, new_filter_siblings, new_filter_subgroup,
}
use filtergen.Glue.Ast.{
  Token, tok_accept, tok_reject, tok_drop, tok_masq, tok_proxy, tok_redirect, Specifier, compound,
  direction, target, host, protocol, port, icmptype, option, chaingroup, nothing, NegatedSpecifier,
  no_specifier, specifier, SpecifierList, no_specifiers, specifiers, SubruleList, no_subrules,
  subrules, Rule, no_rule, rule, RuleList, no_rules, rules, Ast,
}
use filtergen.Glue.Links.{set_pos, link_next, link_child, Naming}
use filtergen.Glue.Arguments.{
  extended, convert_direction, convert_host_specifier, convert_protocol_specifier,
  convert_port_specifier, convert_icmptype_specifier, convert_option_specifier,
}

abbrev pub target_type : Token → FilterType
target_type tok_accept = t_accept
target_type tok_reject = t_reject
target_type tok_drop = drop
target_type tok_masq = masq
target_type tok_proxy = redirect
target_type tok_redirect = redirect
target_type _ = yyeof

-- `if (res) { ...; end->child = x; }`, with a warning if not.
abbrev pub deepened : Filter → Filter → Filter
deepened null x = null
deepened (ptr nd n) x = link_child (ptr nd n) x

-- `new_filter_neg(spec)` if the specifier is negated.
abbrev pub negated_if : Bool → Filter → Filter
negated_if true f = new_filter_neg f
negated_if false f = f

-- The name of a group: its own, or the next of chain_0, chain_1 and so on.
abbrev pub group_name : Libc → Option Text → Naming Text
group_name libc (some name) count = (name, count)
group_name libc none count = (codes "chain_" ++ libc.print_int (pos count), count + 1)

-- What stands after the first is only converted if that gave a filter.
abbrev pub when_given : Filter → Naming Filter → Naming Filter
when_given null run count = (null, count)
when_given (ptr nd n) run count = run count

-- `if (list->list) { res = ...; if (res) ...link the last... } else res = ...last...`, for a list of
-- rules: the last rule is converted in each case.
abbrev pub rules_joined : Filter → Filter → Filter
rules_joined null x = x
rules_joined (ptr nd n) x = link_next (ptr nd n) x

module _ (libc : Libc) (family : Family) where
  unfoldable mutual
    pub convert_specifier : Specifier → ℕ → Filter × ℕ
    convert_specifier (compound list q p) count =
        let (sub, count') = convert_subrule_list list count in
        (set_pos p (set_pos q (new_filter_siblings sub)), count')
    convert_specifier (direction type list q p) count =
        (set_pos p (convert_direction type list q), count)
    convert_specifier (target type p) count = (new_filter_target (target_type type) p, count)
    convert_specifier (host type list q p) count =
        (set_pos p (convert_host_specifier libc family type list q), count)
    convert_specifier (protocol list q p) count =
        (set_pos p (convert_protocol_specifier libc list q), count)
    convert_specifier (port type list q p) count =
        (set_pos p (convert_port_specifier libc type list q), count)
    convert_specifier (icmptype list q p) count =
        (set_pos p (convert_icmptype_specifier list q), count)
    convert_specifier (option type m q p) count =
        (set_pos p (convert_option_specifier type m q), count)
    convert_specifier (chaingroup name list q p) count =
        let (named, count') = group_name libc name count in
        let (sub, count'') = convert_subrule_list list count' in
        (set_pos p (set_pos q (new_filter_subgroup named sub)), count'')
    convert_specifier (nothing p) count = (null, count)

    pub convert_negated_specifier : NegatedSpecifier → ℕ → Filter × ℕ
    convert_negated_specifier no_specifier count = (null, count)
    convert_negated_specifier (specifier negated spec p) count =
        let (f, count') = convert_specifier spec count in (set_pos p (negated_if negated f), count')

    pub convert_specifier_list : SpecifierList → ℕ → Filter × ℕ
    convert_specifier_list no_specifiers count = (null, count)
    convert_specifier_list (specifiers no_specifiers spec p) count =
        let (f, count') = convert_negated_specifier spec count in (set_pos p f, count')
    convert_specifier_list (specifiers (specifiers list s q) spec p) count =
        let (res, count') = convert_specifier_list (specifiers list s q) count in
        let (f, count'') = when_given res (convert_negated_specifier spec) count' in
        (set_pos p (deepened res f), count'')

    pub convert_subrule_list : SubruleList → ℕ → Filter × ℕ
    convert_subrule_list no_subrules count = (null, count)
    convert_subrule_list (subrules no_subrules list p) count =
        let (f, count') = convert_specifier_list list count in (set_pos p f, count')
    convert_subrule_list (subrules (subrules before l q) list p) count =
        let (res, count') = convert_subrule_list (subrules before l q) count in
        let (f, count'') = when_given res (convert_specifier_list list) count' in
        (set_pos p (extended res f), count'')

  unfoldable pub convert_rule : Rule → Naming Filter
  convert_rule no_rule count = (null, count)
  convert_rule (rule list p) count =
      let (f, count') = convert_specifier_list list count in (set_pos p f, count')

  unfoldable pub convert_rule_list : RuleList → Naming Filter
  convert_rule_list no_rules count = (null, count)
  convert_rule_list (rules list r p) count =
      let (res, count') = convert_rule_list list count in
      let (f, count'') = convert_rule r count' in (set_pos p (rules_joined res f), count'')

  unfoldable pub convert : Ast → Naming Filter
  convert ast count =
      let (f, count') = convert_rule_list (Ast.list ast) count in (set_pos (Ast.pos ast) f, count')
