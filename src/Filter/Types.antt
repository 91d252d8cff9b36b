-- ===== src/Filter/Types.antt =====
-- filter.h: the type tags and the data that a filter carries.
use filtergen.Base.{ℕ, Bool, Option, Text, ◌==◌}
use filtergen.Base.Int.{ℤ}

-- `enum filtertype`. The tags that begin with F_ are kinds of filters, the others are values.
pub data FilterType : Type 0 where
  yyeof : FilterType
  f_direction f_target f_source f_dest f_sport f_dport f_icmptype f_proto f_neg : FilterType
  f_siblinglist f_subgroup f_log f_routingtype f_oneway f_filter_max : FilterType
  input output t_accept drop t_reject masq redirect : FilterType
  openbrace closebrace openbracket closebracket semicolon string include : FilterType
  localonly routedonly text : FilterType

-- `a == b` on the enumeration, through the number of each tag.
abbrev pub tag_number : FilterType → ℕ
tag_number yyeof = 0
tag_number f_direction = 1
tag_number f_target = 2
tag_number f_source = 3
tag_number f_dest = 4
tag_number f_sport = 5
tag_number f_dport = 6
tag_number f_icmptype = 7
tag_number f_proto = 8
tag_number f_neg = 9
tag_number f_siblinglist = 10
tag_number f_subgroup = 11
tag_number f_log = 12
tag_number f_routingtype = 13
tag_number f_oneway = 14
tag_number f_filter_max = 15
tag_number input = 16
tag_number output = 17
tag_number t_accept = 18
tag_number drop = 19
tag_number t_reject = 20
tag_number masq = 21
tag_number redirect = 22
tag_number openbrace = 23
tag_number closebrace = 24
tag_number openbracket = 25
tag_number closebracket = 26
tag_number semicolon = 27
tag_number string = 28
tag_number include = 29
tag_number localonly = 30
tag_number routedonly = 31
tag_number text = 32

-- `struct proto_spec`.
pub record ProtoSpec : Type 0 where
  pub num : ℤ
  pub name : Option Text

-- `sa_family_t`, for the two families that the program tells apart.
pub data Family : Type 0 where
  af_inet af_inet6 : Family
  af_other : ℕ → Family

-- `struct addr_spec`. The address itself is only kept as text; the mask is a 32-bit number, or
-- 16 bytes, in network order.
pub data Mask : Type 0 where
  no_mask : Mask
  inet : ℕ → Mask
  inet6 : Text → Mask

pub record AddrSpec : Type 0 where
  pub family : Family
  pub mask : Mask
  pub addrstr : Option Text
  pub maskstr : Option Text

-- `struct port_spec`.
pub record PortSpec : Type 0 where
  pub min : ℤ
  pub max : ℤ
  pub minstr : Option Text
  pub maxstr : Option Text

abbrev pub tag_eq : FilterType → FilterType → Bool
tag_eq a b = tag_number a == tag_number b
