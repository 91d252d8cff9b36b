-- ===== src/Command/Tests.antt =====
-- A system written out, and the theorems on `main` at it.
use filtergen.Base.{Bool, true, false, none, some, List, [], ◌∷◌, codes, ◌≡◌, ◌⊎◌, refl}
use filtergen.Base.Int.{pos}
use filtergen.Base.Outcome.{ok, null_pointer}
use filtergen.Filter.Types.{af_inet}
use filtergen.Filter.Tree.{Filter, Leaf, null}
use filtergen.Filter.Build.{Libc}
use filtergen.Filter.Trails.{trails}
use filtergen.Filter.Packets.{meant, selects}
use filtergen.Gen.Entry as Entry
use filtergen.Gen.Entry.{zero_ent}
use filtergen.Gen.Apply.Paths.{run_trails}
use filtergen.Output.Strapp.{Written}
use filtergen.Output.Ipfilter.{cb_ipfilter}
use filtergen.Glue.Ast.{
  Ast, tok_input, tok_accept, no_list, arguments, direction, target, Specifier, specifier,
  no_specifiers, specifiers, no_rules, rule, rules,
}
use filtergen.Glue.Arguments.{convert_direction}
use filtergen.Glue.Links.{link_child}
use filtergen.Glue.Convert.{convert, convert_rule_list, convert_rule, convert_specifier_list}
use filtergen.Filter.Build.{new_filter_target}
use filtergen.Filter.Groups.{filter_nogroup}
use filtergen.Filter.Negation.Operand.{IsNegatable}
use filtergen.Filter.Targets.Steady.{IsSteady}
use filtergen.Output.Cisco.{fg_cisco}
use filtergen.Resolve.{
  Network, resolve, resolve_rule_list, resolve_rule, resolve_specifier_list,
  resolve_negated_specifier, resolve_specifier,
}
use filtergen.Command.{main, exits, crashes, report}
use filtergen.Command.Options.{Opt, opt_t, opt_f, Settings, defaults, no_flags, read_options}
use filtergen.Command.Tables.{
  System, Filtyp, find_parser, find_type, filtyp, filtergen_source_parser,
}
use filtergen.Command.Flushing.{main_flushes}
use filtergen.Command.Whole.{policy, main_ipfilter}

abbrev bare : Libc
bare = record {
  strtol = λ s. (pos 0, s);
  getprotobynumber = λ _. none;
  getprotobyname = λ _. none;
  getservbyname = λ _. none;
  inet_aton = λ _. none;
  inet_ntoa = λ _. codes "0.0.0.0";
  print_int = λ _. codes "0";
}

abbrev offline : Network
offline = record {
  getaddrinfo = λ family name. none;
  fresh_text = [];
  fresh_pointer = none;
  fresh_position = 0;
}

-- input eth0 accept;
abbrev on_input : Specifier
on_input =
    direction tok_input
      (arguments no_list (some (record { content = some (codes "eth0"); pos = 1 })) 1) 1 1

abbrev file : Ast
file = record {
  list =
      rules no_rules
        (rule
          (specifiers (specifiers no_specifiers (specifier false on_input 1) 1)
            (specifier false (target tok_accept 1) 1) 1)
          1)
        1;
  pos = 1;
}

-- A system with that file, on which nothing else is there.
abbrev system : System
system = record {
  libc = bare;
  net = offline;
  parse = λ _. some (some file);
  ipts_source_parser = λ filename flags family. ok null;
  fg_nftables = λ f flags out. ok (out, Entry.rules 0);
  flush_nftables = λ p out. (out, Entry.rules 0);
  open_outfile = λ _. true;
  null_text = codes "(null)";
}

abbrev to_ipfilter : Settings
to_ipfilter = record defaults { ftn = some (codes "ipfilter") }

abbrev to_nftables : Settings
to_nftables = record defaults { ftn = some (codes "nftables") }

abbrev flushing_cisco : Settings
flushing_cisco = record defaults {
  ftn = some (codes "cisco");
  flags = record no_flags { flush = true };
}

abbrev tree : Filter
tree = policy system (opt_t (codes "ipfilter") ∷ []) (codes "rules.filter") [] to_ipfilter file

file-IsNegatable : IsNegatable (filter_nogroup tree)
unfolding filter_nogroup convert convert_rule_list convert_rule convert_specifier_list
    convert_direction link_child new_filter_target resolve resolve_rule_list resolve_rule
    resolve_specifier_list resolve_negated_specifier resolve_specifier
file-IsNegatable = ((tt, tt), (tt, tt), tt)

file-IsSteady : IsSteady (filter_nogroup tree)
unfolding filter_nogroup convert convert_rule_list convert_rule convert_specifier_list
    convert_direction link_child new_filter_target resolve resolve_rule_list resolve_rule
    resolve_specifier_list resolve_negated_specifier resolve_specifier
file-IsSteady = ((refl, tt, tt), tt)

main_ipfilter_example :
    (f' : Filter) × (main system (opt_t (codes "ipfilter") ∷ []) (codes "rules.filter" ∷ [])
      ≡ report none (run_trails (cb_ipfilter no_flags) (trails f') zero_ent []))
    × ((v : Leaf → Bool) → selects v (trails f') ≡ meant v tree)
unfolding read_options
main_ipfilter_example =
    main_ipfilter system (opt_t (codes "ipfilter") ∷ []) (codes "rules.filter") [] to_ipfilter file
      refl refl refl refl refl refl file-IsNegatable file-IsSteady

abbrev options_cisco : List Opt
options_cisco = opt_t (codes "cisco") ∷ opt_f (codes "Accept") ∷ []

abbrev cisco : Filtyp
cisco = filtyp system (codes "cisco") af_inet fg_cisco none

main_flushes_example :
    ((cisco.flusher ≡ none) × (main system options_cisco [] ≡ crashes null_pointer))
    ⊎ ((out : Written) × (main system options_cisco [] ≡ exits 0 out false))
unfolding read_options find_parser find_type
main_flushes_example =
    main_flushes system (λ p h. ([], refl)) options_cisco [] flushing_cisco
      (record { name = codes "filtergen"; parser = filtergen_source_parser system }) cisco refl refl
      refl refl refl
