-- ===== src/Command/Tables.antt =====
-- filtergen.c, `source_parsers` and `filter_types`, and glue.c, `filtergen_source_parser`.
-- The parsers that bison builds, the iptables-save front end, the nftables back end and the system
-- are parameters.
use filtergen.Base.{Bool, Option, none, some, Text, List, [], ◌∷◌, codes, text_eq, if◌then◌else◌}
use filtergen.Base.Outcome.{Outcome, ok}
use filtergen.Filter.Types.{FilterType, Family, af_inet, af_inet6, af_other}
use filtergen.Filter.Tree.{Filter, null}
use filtergen.Filter.Build.{Libc}
use filtergen.Gen.Entry.{Flags, Count}
use filtergen.Glue.Ast.{Ast}
use filtergen.Glue.Convert.{convert}
use filtergen.Output.Strapp.{Written}
use filtergen.Output.Iptables.Skeleton.{fg_iptables, fg_ip6tables, flush_iptables, flush_ip6tables}
use filtergen.Output.Restore.Skeleton.{fg_iptrestore, fg_ip6trestore, flush_iptrestore}
use filtergen.Output.Ipchains.{fg_ipchains, flush_ipchains}
use filtergen.Output.Ipfilter.{fg_ipfilter}
use filtergen.Output.Cisco.{fg_cisco}
use filtergen.Output.Emit.{emit_filtergen}
use filtergen.Resolve.{Network, resolve}

abbrev pub Compiler : Type 0
Compiler = Filter → Flags → Written → Outcome (Written × Count)

abbrev pub Flusher : Type 0
Flusher = FilterType → Written → Written × Count

-- What is not in the C sources, and what is not modelled of them.
pub record System : Type 0 where
  pub libc : Libc
  -- `getaddrinfo` and `getnameinfo`, for the resolver
  pub net : Network
  -- the file that is read, if it can be opened, and its tree, if it can be parsed
  pub parse : Option Text → Option (Option Ast)
  pub ipts_source_parser : Option Text → Flags → Family → Outcome Filter
  pub fg_nftables : Compiler
  pub flush_nftables : Flusher
  pub open_outfile : Option Text → Bool
  -- what printf writes for a null string
  pub null_text : Text

-- `struct source_parser_s` and `struct filtyp`.
pub record SourceParser : Type 0 where
  pub name : Text
  pub parser : Option Text → Flags → Family → Outcome Filter

pub record Filtyp : Type 0 where
  pub name : Text
  pub family : Family
  pub compiler : Compiler
  pub flusher : Option Flusher

module _ (system : System) where
  abbrev pub resolved : Flags → Family → Ast → Ast
  resolved flags family ast =
      if flags.noresolve then ast else resolve system.libc system.net family ast

  abbrev pub parsed_file : Flags → Family → Option (Option Ast) → Filter
  parsed_file flags family none = null
  parsed_file flags family (some none) = null
  parsed_file flags family (some (some ast)) =
      (convert system.libc family (resolved flags family ast) 0).0

  unfoldable pub filtergen_source_parser : Option Text → Flags → Family → Outcome Filter
  unfolding resolve
  filtergen_source_parser filename flags family =
      ok (parsed_file flags family (system.parse filename))

  abbrev pub source_parsers : List SourceParser
  source_parsers =
      record { name = codes "filtergen"; parser = filtergen_source_parser }
      ∷ record { name = codes "iptables-save"; parser = system.ipts_source_parser }
      ∷ []

  abbrev pub filtyp : Text → Family → Compiler → Option Flusher → Filtyp
  filtyp name family compiler flusher = record {
    name = name;
    family = family;
    compiler = compiler;
    flusher = flusher;
  }

  -- `flush_ip6trestore` writes what `flush_iptrestore` writes.
  abbrev pub filter_types : List Filtyp
  filter_types =
      filtyp (codes "iptables") af_inet fg_iptables (some flush_iptables)
      ∷ filtyp (codes "ip6tables") af_inet6 fg_ip6tables (some flush_ip6tables)
      ∷ filtyp (codes "iptables-restore") af_inet fg_iptrestore (some flush_iptrestore)
      ∷ filtyp (codes "ip6tables-restore") af_inet6 fg_ip6trestore (some flush_iptrestore)
      ∷ filtyp (codes "ipchains") af_inet (fg_ipchains system.null_text) (some flush_ipchains)
      ∷ filtyp (codes "ipfilter") af_inet fg_ipfilter none
      ∷ filtyp (codes "cisco") af_inet fg_cisco none
      ∷ filtyp (codes "filtergen") (af_other 0) emit_filtergen none
      ∷ filtyp (codes "nftables") af_inet system.fg_nftables (some system.flush_nftables)
      ∷ []

  -- The two loops that look for a name.
  abbrev pub parser_named : Text → List SourceParser → Option SourceParser
  parser_named name [] = none
  parser_named name (sp ∷ more) = if text_eq name sp.name then some sp else parser_named name more

  abbrev pub type_named : Text → List Filtyp → Option Filtyp
  type_named name [] = none
  type_named name (ft ∷ more) = if text_eq name ft.name then some ft else type_named name more

  unfoldable pub find_parser : Text → Option SourceParser
  unfolding text_eq
  find_parser name = parser_named name source_parsers

  unfoldable pub find_type : Text → Option Filtyp
  unfolding text_eq
  find_type name = type_named name filter_types
