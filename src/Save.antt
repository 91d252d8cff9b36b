-- ===== src/Save.antt =====
-- input/iptables-save/glue.c: from the syntax tree of iptables-save to filters.
-- The text that the conversions print is passed along. A null position is 0.
pub mod Tree
mod Policies
mod Scanner
mod Grammar
mod Printer
mod Words
mod Printable
mod Arguments
mod Options
mod RoundTrip
mod Tests
use filtergen.Base.{
  ℕ, Bool, true, false, Option, none, some, Text, List, [], ◌∷◌, ◌++◌, codes, text_eq, lowered,
  if◌then◌else◌,
}
use filtergen.Save.Tree.{
  Identifier, NotIdentifier, Range, NotRange, IptsOption, in_interface_option, jump_option,
  NotOption, OptionList, no_options, option_list, IptsRule, IptsRuleList, no_ipts_rules, rule_list,
  Table, TableList, no_tables, table_list,
}
use filtergen.Filter.Types.{FilterType, yyeof, input, output, t_accept, drop, t_reject}
use filtergen.Filter.Tree.{Filter, null, ptr}
use filtergen.Filter.Build.{new_filter_device, new_filter_target, new_filter_neg}
use filtergen.Glue.Links.{link_next, link_child}

-- A conversion that prints.
abbrev pub Converting : Type 0
Converting = Text → Filter × Text

abbrev pub printed : Option Text → Text → Text
printed none out = out
printed (some s) out = out ++ s

abbrev pub ipts_convert_identifier : Option Identifier → Converting
ipts_convert_identifier none out = (null, out)
ipts_convert_identifier (some n) out = (null, printed n.string out)

abbrev pub ipts_convert_not_identifier : Option NotIdentifier → Converting
ipts_convert_not_identifier none out = (null, out)
ipts_convert_not_identifier (some n) out = (null, (ipts_convert_identifier n.identifier out).1)

-- The next two are never called.
abbrev pub ipts_convert_range : Range → Converting
ipts_convert_range n out =
    (null, (ipts_convert_identifier n.end (ipts_convert_identifier n.start out).1).1)

abbrev ranged : Option Range → Converting
ranged none out = (null, out)
ranged (some n) out = (null, (ipts_convert_range n out).1)

abbrev pub ipts_convert_not_range : NotRange → Converting
ipts_convert_not_range n out = ranged n.range out

-- `res` stays null.
unfoldable pub ipts_convert_option : IptsOption → Converting
ipts_convert_option (in_interface_option n) out = (null, (ipts_convert_not_identifier n out).1)
ipts_convert_option (jump_option n) out = (null, (ipts_convert_identifier n out).1)
ipts_convert_option _ out = (null, out)

-- `if (opt && n->neg) res = new_filter_neg(opt); else res = opt;`
abbrev pub ipts_negated_if : Bool → Filter → Filter
ipts_negated_if true null = null
ipts_negated_if true (ptr nd n) = new_filter_neg (ptr nd n)
ipts_negated_if false f = f

unfoldable pub ipts_convert_not_option : Bool → Option IptsOption → Converting
unfolding ipts_convert_option new_filter_neg
ipts_convert_not_option neg none out = (null, out)
ipts_convert_not_option neg (some o) out =
    let (opt, out') = ipts_convert_option o out in (ipts_negated_if neg opt, out')

-- The rest of a list, behind what stands before; nothing is converted where that gave null.
abbrev pub extend_options : Filter × Text → NotOption → Filter × Text
extend_options (null, out) n = (null, out)
extend_options (ptr nd next, out) n =
    let (opt, out') = ipts_convert_not_option n.neg n.option out in
    (link_child (ptr nd next) opt, out')

unfoldable pub ipts_convert_option_list : OptionList → Converting
unfolding ipts_convert_not_option link_child
ipts_convert_option_list no_options out = (null, out)
ipts_convert_option_list (option_list no_options n) out = ipts_convert_not_option n.neg n.option out
ipts_convert_option_list (option_list (option_list list m) n) out =
    extend_options (ipts_convert_option_list (option_list list m) out) n

-- An unknown chain gives 0, the number of YYEOF.
unfoldable pub chain_direction : Text → FilterType
unfolding text_eq
chain_direction s =
    if text_eq (lowered s) (codes "input")
    then input
    else if text_eq (lowered s) (codes "output")
    then output
    else yyeof

unfoldable pub policy_target : Text → FilterType
unfolding text_eq
policy_target s =
    if text_eq (lowered s) (codes "accept")
    then t_accept
    else if text_eq (lowered s) (codes "drop")
    then drop
    else if text_eq (lowered s) (codes "reject")
    then t_reject
    else yyeof

-- `res = new_filter_device(...); res->child = new_filter_target(...)`.
abbrev pub policy_filter : Text → Text → Filter
policy_filter chain policy =
    link_child (new_filter_device (chain_direction chain) (codes "eth0") 0)
      (new_filter_target (policy_target policy) 0)

abbrev pub convert_policy : Text → Option Text → OptionList → Converting
convert_policy chain (some policy) list out = (policy_filter chain policy, out)
convert_policy chain none list out = ipts_convert_option_list list out

unfoldable pub ipts_convert_rule : IptsRule → Converting
unfolding ipts_convert_option_list chain_direction policy_target new_filter_device new_filter_target
    link_child
ipts_convert_rule n out = convert_policy n.chain n.policy n.option_list out

abbrev pub extend_rules : Filter × Text → IptsRule → Filter × Text
extend_rules (null, out) n = (null, out)
extend_rules (ptr nd next, out) n =
    let (f, out') = ipts_convert_rule n out in (link_next (ptr nd next) f, out')

unfoldable pub ipts_convert_rule_list : IptsRuleList → Converting
unfolding ipts_convert_rule link_next
ipts_convert_rule_list no_ipts_rules out = (null, out)
ipts_convert_rule_list (rule_list no_ipts_rules n) out = ipts_convert_rule n out
ipts_convert_rule_list (rule_list (rule_list list m) n) out =
    extend_rules (ipts_convert_rule_list (rule_list list m) out) n

unfoldable pub ipts_convert_table : Table → Converting
unfolding ipts_convert_rule_list
ipts_convert_table n out = ipts_convert_rule_list n.rule_list out

-- Each table is converted, and the last result is kept.
unfoldable pub ipts_convert_table_list : TableList → Converting
unfolding ipts_convert_table
ipts_convert_table_list no_tables out = (null, out)
ipts_convert_table_list (table_list list n) out =
    let (f, out') = ipts_convert_table_list list out in ipts_convert_table n out'

unfoldable pub ipts_convert : TableList → Converting
unfolding ipts_convert_table_list
ipts_convert list out = ipts_convert_table_list list out
