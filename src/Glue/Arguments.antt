-- ===== src/Glue/Arguments.antt =====
-- glue.c, the conversions of specifiers whose arguments are plain lists.
use filtergen.Base.{ℕ, Option, none, some, Text, ◌∷◌, ◌++◌}
use filtergen.Filter.Types.{
  FilterType, yyeof, input, output, f_source, f_dest, f_sport, f_dport, f_proto, f_icmptype, f_log,
  f_oneway, localonly, routedonly, Family,
}
use filtergen.Filter.Tree.{Filter, null, ptr}
use filtergen.Filter.Build.{
  Libc, new_filter_device, new_filter_host, new_filter_proto, new_filter_ports, new_filter_icmp,
  new_filter_rtype, new_filter_log, new_filter_siblings,
}
use filtergen.Glue.Ast.{
  Token, tok_input, tok_output, tok_source, tok_dest, tok_sport, tok_dport, tok_local, tok_forward,
  tok_oneway, tok_log, ArgumentList, no_list, arguments, TextArgument, HostArgument, PortArgument,
}
use filtergen.Glue.Links.{set_pos, link_next}

-- `if (n->arg) ... convert(n->arg)`.
abbrev pub given {ℓ} : {A : Type ℓ} → (A → Filter) → Option A → Filter
given convert none = null
given convert (some a) = convert a

-- `if (res) { ...; end->next = x; }`, with a warning if not.
abbrev pub extended : Filter → Filter → Filter
extended null x = null
extended (ptr nd n) x = link_next (ptr nd n) x

-- The five functions `convert_*_argument_list` differ in the conversion of one argument only.
module _ {A : Type 0} (convert : A → Filter) where
  unfoldable pub convert_argument_list : ArgumentList A → Filter
  unfolding link_next
  convert_argument_list no_list = null
  convert_argument_list (arguments no_list arg p) = set_pos p (given convert arg)
  convert_argument_list (arguments (arguments list a q) arg p) =
      set_pos p (extended (convert_argument_list (arguments list a q)) (given convert arg))

  -- `if (n->list) res = new_filter_siblings(convert_*_argument_list(n->list, ...))`.
  unfoldable pub convert_arguments : ArgumentList A → ℕ → Filter
  unfolding convert_argument_list new_filter_siblings
  convert_arguments list p = set_pos p (new_filter_siblings (convert_argument_list list))

unfoldable pub convert_direction_argument : FilterType → TextArgument → Filter
unfolding new_filter_device
convert_direction_argument type n =
    set_pos n.pos (given (λ d. new_filter_device type d n.pos) n.content)

abbrev pub direction_type : Token → FilterType
direction_type tok_input = input
direction_type tok_output = output
direction_type _ = yyeof

unfoldable pub convert_direction : Token → ArgumentList TextArgument → ℕ → Filter
unfolding convert_direction_argument convert_arguments
convert_direction type list p =
    convert_arguments (convert_direction_argument (direction_type type)) list p

-- `host/mask`, or the host alone.
abbrev pub host_text : Text → Option Text → Text
host_text h none = h
host_text h (some m) = h ++ b'/' ∷ m

abbrev pub port_text : Text → Option Text → Text
port_text min none = min
port_text min (some max) = min ++ b':' ∷ max

abbrev pub host_type : Token → FilterType
host_type tok_source = f_source
host_type tok_dest = f_dest
host_type _ = yyeof

abbrev pub port_type : Token → FilterType
port_type tok_sport = f_sport
port_type tok_dport = f_dport
port_type _ = yyeof

module _ (libc : Libc) where
  unfoldable pub convert_host_argument : Family → FilterType → HostArgument → Filter
  unfolding new_filter_host
  convert_host_argument family type n =
      set_pos n.pos
        (given (λ h. new_filter_host libc type (host_text h n.mask) family n.pos) n.host)

  unfoldable pub convert_host_specifier : Family → Token → ArgumentList HostArgument → ℕ → Filter
  unfolding convert_host_argument convert_arguments
  convert_host_specifier family type list p =
      convert_arguments (convert_host_argument family (host_type type)) list p

  unfoldable pub convert_protocol_argument : TextArgument → Filter
  unfolding new_filter_proto
  convert_protocol_argument n =
      set_pos n.pos (given (λ s. new_filter_proto libc f_proto s n.pos) n.content)

  unfoldable pub convert_protocol_specifier : ArgumentList TextArgument → ℕ → Filter
  unfolding convert_protocol_argument convert_arguments
  convert_protocol_specifier list p = convert_arguments convert_protocol_argument list p

  unfoldable pub convert_port_argument : FilterType → PortArgument → Filter
  unfolding new_filter_ports
  convert_port_argument type n =
      set_pos n.pos
        (given (λ s. new_filter_ports libc type (port_text s n.port_max) n.pos) n.port_min)

  unfoldable pub convert_port_specifier : Token → ArgumentList PortArgument → ℕ → Filter
  unfolding convert_port_argument convert_arguments
  convert_port_specifier type list p =
      convert_arguments (convert_port_argument (port_type type)) list p

unfoldable pub convert_icmptype_argument : TextArgument → Filter
unfolding new_filter_icmp
convert_icmptype_argument n =
    set_pos n.pos (given (λ s. new_filter_icmp f_icmptype s n.pos) n.content)

unfoldable pub convert_icmptype_specifier : ArgumentList TextArgument → ℕ → Filter
unfolding convert_icmptype_argument convert_arguments
convert_icmptype_specifier list p = convert_arguments convert_icmptype_argument list p

unfoldable pub convert_option_specifier : Token → Option Text → ℕ → Filter
unfolding new_filter_rtype new_filter_log
convert_option_specifier tok_local m p = new_filter_rtype localonly p
convert_option_specifier tok_forward m p = new_filter_rtype routedonly p
convert_option_specifier tok_oneway m p = new_filter_rtype f_oneway p
convert_option_specifier tok_log m p = new_filter_log f_log m p
convert_option_specifier _ m p = null
