-- ===== src/Resolve.antt =====
-- resolver.c: names of hosts, ports, protocols and ICMP types in the syntax tree become numbers.
-- What cannot be resolved stays, with a warning that is not modelled.
pub mod Icmp
pub mod Hosts
mod Tests
use filtergen.Base.{ℕ, Option, none, some, Text, List, [], ◌∷◌}
use filtergen.Base.Int.{ℤ, pos}
use filtergen.Filter.Types.{Family}
use filtergen.Filter.Build.{Libc}
use filtergen.Glue.Ast.{
  ArgumentList, no_list, arguments, TextArgument, HostArgument, PortArgument, Specifier, compound,
  direction, target, host, protocol, port, icmptype, option, chaingroup, nothing, NegatedSpecifier,
  no_specifier, specifier, SpecifierList, no_specifiers, specifiers, SubruleList, no_subrules,
  subrules, Rule, no_rule, rule, RuleList, no_rules, rules, Ast,
}
use filtergen.Resolve.Icmp.{IcmpEnt, geticmpbyname}

-- The network functions, and what memory holds that the program has not written. The addresses of a
-- name are a first one and others, each as the text that `getnameinfo` gives, if it gives one.
pub record Network : Type 0 where
  pub getaddrinfo : Family → Text → Option (Option Text × List (Option Text))
  pub fresh_text : Text
  pub fresh_pointer : Option Text
  pub fresh_position : ℕ

-- `if ((i = geticmpbyname(s))) s = i->i_type`, and the same for the other tables.
abbrev pub icmp_text : Text → Option IcmpEnt → Text
icmp_text s none = s
icmp_text s (some e) = e.i_type

abbrev pub map_content : (Text → Text) → Option Text → Option Text
map_content f none = none
map_content f (some s) = some (f s)

unfoldable pub resolve_icmptype_argument : TextArgument → TextArgument
unfolding geticmpbyname
resolve_icmptype_argument n = record n {
  content = map_content (λ s. icmp_text s (geticmpbyname s)) n.content;
}

abbrev pub service_text : Libc → Text → Option (Text × ℕ) → Text
service_text libc s none = s
service_text libc s (some (name, number)) = libc.print_int (pos number)

abbrev pub protocol_text : Libc → Text → Option (ℤ × Text) → Text
protocol_text libc s none = s
protocol_text libc s (some (num, name)) = libc.print_int num

-- The lists of arguments: first what stands before, then the argument.
unfoldable pub resolve_argument_list : {A : Type 0} → (A → A) → ArgumentList A → ArgumentList A
resolve_argument_list f no_list = no_list
resolve_argument_list f (arguments list none p) = arguments (resolve_argument_list f list) none p
resolve_argument_list f (arguments list (some a) p) =
    arguments (resolve_argument_list f list) (some (f a)) p

module _ (libc : Libc) where
  unfoldable pub resolve_port_argument : PortArgument → PortArgument
  resolve_port_argument n =
      let resolved = map_content (λ s. service_text libc s (libc.getservbyname s)) in
      record n { port_min = resolved n.port_min; port_max = resolved n.port_max }

  unfoldable pub resolve_protocol_argument : TextArgument → TextArgument
  resolve_protocol_argument n = record n {
    content = map_content (λ s. protocol_text libc s (libc.getprotobyname s)) n.content;
  }

module _ (net : Network) where
  -- The mask of a host that is added is only written if there is one to copy.
  abbrev pub copied_mask : Option Text → Option Text
  copied_mask none = net.fresh_pointer
  copied_mask (some m) = some m

  -- `for (i = a->ai_next; i; i = i->ai_next)`: each further address is inserted behind the list.
  unfoldable pub add_hosts :
      Option Text → List (Option Text) → ArgumentList HostArgument → ArgumentList HostArgument
  add_hosts mask [] list = list
  add_hosts mask (none ∷ more) list = add_hosts mask more list
  add_hosts mask (some s ∷ more) list = add_hosts mask more (
      arguments list
        (some (record { host = some s; mask = copied_mask mask; pos = net.fresh_position }))
        net.fresh_position)

  -- What `getaddrinfo` returned for an argument with a host, put into its list.
  abbrev pub put_addresses :
      ArgumentList HostArgument
      → HostArgument
      → ℕ
      → Option (Option Text × List (Option Text))
      → ArgumentList HostArgument
  put_addresses list a p none = arguments list (some a) p
  put_addresses list a p (some (none, more)) =
      arguments list (some (record a { host = some net.fresh_text })) p
  put_addresses list a p (some (some s, more)) =
      arguments (add_hosts a.mask more list) (some (record a { host = some s })) p

  abbrev pub resolve_host :
      Family
      → ArgumentList HostArgument
      → HostArgument
      → ℕ
      → Option Text
      → ArgumentList HostArgument
  resolve_host family list a p none = arguments list (some a) p
  resolve_host family list a p (some h) = put_addresses list a p (net.getaddrinfo family h)

  unfoldable pub resolve_host_argument_list :
      Family → ArgumentList HostArgument → ArgumentList HostArgument
  unfolding add_hosts
  resolve_host_argument_list family no_list = no_list
  resolve_host_argument_list family (arguments list none p) =
      arguments (resolve_host_argument_list family list) none p
  resolve_host_argument_list family (arguments list (some a) p) =
      resolve_host family (resolve_host_argument_list family list) a p a.host

module _ (libc : Libc) (net : Network) (family : Family) where
  unfoldable mutual
    pub resolve_specifier : Specifier → Specifier
    resolve_specifier (compound list q p) = compound (resolve_subrule_list list) q p
    resolve_specifier (direction type list q p) = direction type list q p
    resolve_specifier (target type p) = target type p
    resolve_specifier (host type list q p) =
        host type (resolve_host_argument_list net family list) q p
    resolve_specifier (protocol list q p) =
        protocol (resolve_argument_list (resolve_protocol_argument libc) list) q p
    resolve_specifier (port type list q p) =
        port type (resolve_argument_list (resolve_port_argument libc) list) q p
    resolve_specifier (icmptype list q p) =
        icmptype (resolve_argument_list resolve_icmptype_argument list) q p
    resolve_specifier (option type m q p) = option type m q p
    resolve_specifier (chaingroup name list q p) = chaingroup name (resolve_subrule_list list) q p
    resolve_specifier (nothing p) = nothing p

    pub resolve_negated_specifier : NegatedSpecifier → NegatedSpecifier
    resolve_negated_specifier no_specifier = no_specifier
    resolve_negated_specifier (specifier negated spec p) =
        specifier negated (resolve_specifier spec) p

    pub resolve_specifier_list : SpecifierList → SpecifierList
    resolve_specifier_list no_specifiers = no_specifiers
    resolve_specifier_list (specifiers list spec p) =
        specifiers (resolve_specifier_list list) (resolve_negated_specifier spec) p

    pub resolve_subrule_list : SubruleList → SubruleList
    resolve_subrule_list no_subrules = no_subrules
    resolve_subrule_list (subrules list specs p) =
        subrules (resolve_subrule_list list) (resolve_specifier_list specs) p

  unfoldable pub resolve_rule : Rule → Rule
  resolve_rule no_rule = no_rule
  resolve_rule (rule list p) = rule (resolve_specifier_list list) p

  unfoldable pub resolve_rule_list : RuleList → RuleList
  resolve_rule_list no_rules = no_rules
  resolve_rule_list (rules list r p) = rules (resolve_rule_list list) (resolve_rule r) p

  unfoldable pub resolve : Ast → Ast
  resolve ast = record ast { list = resolve_rule_list ast.list }
