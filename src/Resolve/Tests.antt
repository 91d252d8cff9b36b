-- ===== src/Resolve/Tests.antt =====
-- The theorems on the resolver at arguments written out.
use filtergen.Base.{none, some, [], ◌∷◌, codes, text_eq, if◌then◌else◌, ◌≡◌, refl}
use filtergen.Base.Int.{pos}
use filtergen.Filter.Types.{af_inet}
use filtergen.Filter.Build.{Libc}
use filtergen.Glue.Ast.{ArgumentList, no_list, arguments, HostArgument, PortArgument}
use filtergen.Resolve.{Network, resolve_host_argument_list}
use filtergen.Resolve.Icmp.{entry, icmpcodes, geticmpbyname}
use filtergen.Resolve.Icmp.Found.{geticmpbyname_finds}
use filtergen.Resolve.Hosts.{hosts, all_addresses, hosts-resolve}

-- A network on which every name has two addresses, the second without a text.
abbrev network : Network
network = record {
  getaddrinfo = λ family name. some (some (codes "10.0.0.1"), some (codes "10.0.0.2") ∷ none ∷ []);
  fresh_text = [];
  fresh_pointer = none;
  fresh_position = 0;
}

-- A library that knows one service and prints every number as 25.
abbrev with_services : Libc
unfolding text_eq
with_services = record {
  strtol = λ s. (pos 0, s);
  getprotobynumber = λ _. none;
  getprotobyname = λ _. none;
  getservbyname = λ s. if text_eq s (codes "smtp") then some (codes "smtp", 25) else none;
  inet_aton = λ _. none;
  inet_ntoa = λ _. codes "0.0.0.0";
  print_int = λ _. codes "25";
}

abbrev ports : ArgumentList PortArgument
ports =
    arguments no_list
      (some (record { port_min = some (codes "smtp"); port_max = some (codes "80"); pos = 1 })) 1

abbrev names : ArgumentList HostArgument
names =
    arguments
      (arguments no_list (some (record { host = some (codes "a"); mask = none; pos = 1 })) 1)
      (some (record { host = some (codes "b"); mask = none; pos = 1 })) 1

geticmpbyname_finds_example :
    geticmpbyname (codes "redirect") ≡ some (entry (codes "5") (codes "redirect"))
unfolding icmpcodes
geticmpbyname_finds_example = geticmpbyname_finds 19 (entry (codes "5") (codes "redirect")) refl

hosts-resolve_example :
    hosts (resolve_host_argument_list network af_inet names)
    ≡ all_addresses network af_inet (hosts names)
hosts-resolve_example = hosts-resolve network af_inet names
