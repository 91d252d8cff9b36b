-- ===== src/Glue/Tests.antt =====
-- A policy as a syntax tree, and the theorems on its conversion at it.
use filtergen.Base.{Bool, true, false, ◌≡◌, refl, some, none, [], Text, codes}
use filtergen.Base.Int.{pos}
use filtergen.Base.Outcome.{ok}
use filtergen.Filter.Types.{af_inet}
use filtergen.Filter.Tree.{Filter, Leaf}
use filtergen.Filter.Build.{Libc, new_filter_neg, new_filter_target}
use filtergen.Filter.Trails.{trails}
use filtergen.Filter.Packets.{meant, selects}
use filtergen.Filter.Negation.Operand.{IsNegatable}
use filtergen.Filter.Groups.{filter_nogroup}
use filtergen.Filter.Targets.Steady.{IsSteady}
use filtergen.Gen.Entry.{zero_ent, Flags}
use filtergen.Gen.Apply.Paths.{run_trails}
use filtergen.Output.Strapp.{oputs}
use filtergen.Output.Ipfilter.{cb_ipfilter, fg_ipfilter}
use filtergen.Output.Cisco.{cb_cisco, fg_cisco, cisco_warning}
use filtergen.Output.Emit.{out_filtergen_cb, emit_filtergen}
use filtergen.Glue.Ast.{
  tok_input, tok_source, tok_accept, no_list, arguments, compound, direction, target, host,
  Specifier, NegatedSpecifier, specifier, SpecifierList, no_specifiers, specifiers, SubruleList,
  no_subrules, subrules, no_rules, rule, rules, Ast,
}
use filtergen.Glue.Convert.{convert, convert_rule_list, convert_rule, convert_specifier_list}
use filtergen.Glue.Links.{link_child}
use filtergen.Glue.Arguments.{convert_direction, convert_host_specifier}
use filtergen.Glue.Full.{IsFull}
use filtergen.Glue.Built.{convert-IsFull}
use filtergen.Glue.Policy.{parsed, fg_ipfilter-trails, fg_cisco-trails, emit_filtergen-trails}

-- A library whose tables are empty.
abbrev bare : Libc
bare = record {
  strtol = λ s. (pos 0, s);
  getprotobynumber = λ _. none;
  getprotobyname = λ _. none;
  getservbyname = λ _. none;
  inet_aton = λ _. none;
  inet_ntoa = λ _. codes "0.0.0.0";
  print_int = λ _. codes "0";
}

abbrev plain_flags : Flags
plain_flags = record {
  noskel = false;
  lstate = false;
  local = false;
  route = false;
  noresolve = false;
  flush = false;
}

abbrev source_is : Text → Specifier
source_is s =
    host tok_source (arguments no_list (some (record { host = some s; mask = none; pos = 1 })) 1) 1
      1

abbrev alone : NegatedSpecifier → SpecifierList
alone s = specifiers no_specifiers s 1

-- input eth0 { source 10.0.0.1; ! source 192.0.2.7 } accept;
abbrev sources : SubruleList
sources =
    subrules (subrules no_subrules (alone (specifier false (source_is (codes "10.0.0.1")) 1)) 1)
      (alone (specifier true (source_is (codes "192.0.2.7")) 1)) 1

abbrev on_input : Specifier
on_input =
    direction tok_input
      (arguments no_list (some (record { content = some (codes "eth0"); pos = 1 })) 1) 1 1

abbrev example : Ast
example = record {
  list =
      rules no_rules
        (rule
          (specifiers
            (specifiers (alone (specifier false on_input 1))
              (specifier false (compound sources 1 1) 1) 1)
            (specifier false (target tok_accept 1) 1) 1)
          1)
        1;
  pos = 1;
}

example-IsNegatable : IsNegatable (filter_nogroup (parsed bare af_inet example 0))
unfolding filter_nogroup convert convert_rule_list convert_rule convert_specifier_list
    convert_direction link_child convert_host_specifier new_filter_target new_filter_neg
example-IsNegatable = ((tt, tt), (((tt, tt), tt, (tt, tt, tt)), (tt, tt), tt), tt)

example-IsSteady : IsSteady (filter_nogroup (parsed bare af_inet example 0))
unfolding filter_nogroup convert convert_rule_list convert_rule convert_specifier_list
    convert_direction link_child convert_host_specifier new_filter_target
example-IsSteady = (((refl, tt, tt), tt), tt)

convert-IsFull_example : IsFull (convert bare af_inet example 0).0
convert-IsFull_example = convert-IsFull bare af_inet example 0

fg_ipfilter-trails_example :
    (f' : Filter) × (fg_ipfilter (parsed bare af_inet example 0) plain_flags []
      ≡ ok (run_trails (cb_ipfilter plain_flags) (trails f') zero_ent []))
    × ((v : Leaf → Bool) → selects v (trails f') ≡ meant v (parsed bare af_inet example 0))
fg_ipfilter-trails_example =
    fg_ipfilter-trails bare af_inet example 0 example-IsNegatable example-IsSteady plain_flags []

fg_cisco-trails_example :
    (f' : Filter) × (fg_cisco (parsed bare af_inet example 0) plain_flags []
      ≡ ok (run_trails (cb_cisco plain_flags) (trails f') zero_ent (oputs (some cisco_warning) [])))
    × ((v : Leaf → Bool) → selects v (trails f') ≡ meant v (parsed bare af_inet example 0))
fg_cisco-trails_example =
    fg_cisco-trails bare af_inet example 0 example-IsNegatable example-IsSteady plain_flags []

emit_filtergen-trails_example :
    (f' : Filter) × (emit_filtergen (parsed bare af_inet example 0) plain_flags []
      ≡ ok (run_trails (out_filtergen_cb plain_flags) (trails f') zero_ent []))
    × ((v : Leaf → Bool) → selects v (trails f') ≡ meant v (parsed bare af_inet example 0))
emit_filtergen-trails_example =
    emit_filtergen-trails bare af_inet example 0 example-IsNegatable example-IsSteady plain_flags []
