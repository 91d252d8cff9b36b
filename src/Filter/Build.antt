-- ===== src/Filter/Build.antt =====
-- filter.c, the constructors `new_filter_*`, and fg-util.c, `str_to_int`.
-- The C library is a parameter. Memory does not run out.
pub mod Masks
pub mod Hosts
use filtergen.Base.{
  ℕ, zero, suc, ◌+◌, ◌-◌, ◌*◌, ◌/◌, ◌%◌, ◌^◌, Bool, true, false, ◌||◌, Option, none, some, List, [],
  ◌∷◌, ◌++◌, Text, ltb, leb, ◌==◌, if◌then◌else◌,
}
use filtergen.Base.Int.{ℤ, pos, negsuc, to_int}
use filtergen.Filter.Types.{
  FilterType, f_direction, f_source, f_dest, f_sport, f_dport, f_log, f_proto, f_icmptype,
  ProtoSpec, AddrSpec, Family, af_inet, af_inet6, af_other, Mask, no_mask, inet, inet6, PortSpec,
}
use filtergen.Filter.Tree.{
  Filter, null, ptr, Node, Leaf, Head, direction, target, source, dest, sport, dport, icmptype,
  proto, log, routingtype, oneway, other, leaf, neg, siblings, subgroup,
}

-- What the constructors use of the C library and of the system's tables.
pub record Libc : Type 0 where
  -- the number that `strtol(s, &e, 10)` reads, and the text at `e`
  pub strtol : Text → ℤ × Text
  -- `p_proto` and `p_name`
  pub getprotobynumber : ℤ → Option (ℤ × Text)
  pub getprotobyname : Text → Option (ℤ × Text)
  -- `s_name`, and `s_port` in host order
  pub getservbyname : Text → Option (Text × ℕ)
  -- an address as a number in host order
  pub inet_aton : Text → Option ℕ
  pub inet_ntoa : ℕ → Text
  -- `%d`
  pub print_int : ℤ → Text

-- `str_to_int`: the number, if the whole string was read.
abbrev pub whole_number : ℤ × Text → Option ℤ
whole_number (m, []) = some (to_int m)
whole_number (m, _ ∷ _) = none

unfoldable pub str_to_int : Libc → Text → Option ℤ
str_to_int libc s = whole_number (libc.strtol s)

abbrev pub new_head : ℕ → Head
new_head p = record { negate = false; pos = p }

-- `__new_filter` with the union filled in.
abbrev pub new_filter : Leaf → ℕ → Filter
new_filter l p = ptr (leaf l (new_head p) null) null

unfoldable pub new_filter_oneway : ℕ → Filter
new_filter_oneway p = new_filter oneway p

unfoldable pub new_filter_target : FilterType → ℕ → Filter
new_filter_target t p = new_filter (target t) p

-- The constructors that take the type from their caller.
abbrev pub log_leaf : FilterType → Option Text → Leaf
log_leaf f_log m = log m
log_leaf t m = other t

unfoldable pub new_filter_log : FilterType → Option Text → ℕ → Filter
new_filter_log t m p = new_filter (log_leaf t m) p

unfoldable pub new_filter_rtype : FilterType → ℕ → Filter
new_filter_rtype r p = new_filter (routingtype r) p

abbrev pub pos_of : Node → ℕ
pos_of (leaf l h c) = h.pos
pos_of (neg s h c) = h.pos
pos_of (siblings s h c) = h.pos
pos_of (subgroup name s h c) = h.pos

unfoldable pub new_filter_neg : Filter → Filter
new_filter_neg null = null
new_filter_neg (ptr nd n) = ptr (neg (ptr nd n) (new_head (pos_of nd)) null) null

unfoldable pub new_filter_siblings : Filter → Filter
new_filter_siblings null = null
new_filter_siblings (ptr nd n) = ptr (siblings (ptr nd n) (new_head (pos_of nd)) null) null

unfoldable pub new_filter_subgroup : Text → Filter → Filter
new_filter_subgroup name null = null
new_filter_subgroup name (ptr nd n) =
    ptr (subgroup name (ptr nd n) (new_head (pos_of nd)) null) null

abbrev pub proto_leaf : FilterType → ProtoSpec → Leaf
proto_leaf f_proto p = proto p
proto_leaf t p = other t

abbrev pub proto_node : FilterType → ℕ → Option (ℤ × Text) → Filter
proto_node t p none = null
proto_node t p (some (num, name)) =
    new_filter (proto_leaf t (record { num = num; name = some name })) p

abbrev pub proto_entry : Libc → Text → Option ℤ → Option (ℤ × Text)
proto_entry libc name (some num) = libc.getprotobynumber num
proto_entry libc name none = libc.getprotobyname name

unfoldable pub new_filter_proto : Libc → FilterType → Text → ℕ → Filter
unfolding str_to_int
new_filter_proto libc t name p = proto_node t p (proto_entry libc name (str_to_int libc name))

unfoldable pub new_filter_device : FilterType → Text → ℕ → Filter
new_filter_device d iface p = new_filter (direction d iface) p

abbrev pub icmp_leaf : FilterType → Text → Leaf
icmp_leaf f_icmptype i = icmptype i
icmp_leaf t i = other t

unfoldable pub new_filter_icmp : FilterType → Text → ℕ → Filter
new_filter_icmp t i p = new_filter (icmp_leaf t i) p

-- `strchr(s, c)` and the cut there: what stands before the first `c`, and after it if there is one.
abbrev pub cons_first : ℕ → Text × Option Text → Text × Option Text
cons_first a (s, t) = (a ∷ s, t)

unfoldable pub cut_at : ℕ → Text → Text × Option Text
cut_at c [] = ([], none)
cut_at c (a ∷ s) = if a == c then ([], some s) else cons_first a (cut_at c s)

-- `l >>= i; l <<= i;` on 0xffffffff, for a prefix of `32 - i` bits.
unfoldable pub inet_prefix : ℕ → ℕ
inet_prefix i = if i == 0 then 0 else 0xffff_ffff / 2 ^ (32 - i) * 2 ^ (32 - i) % 2 ^ 32

-- `while (o > 8) { *p = 0x00; o -= 8; }` over the one octet that `p` points at and `o`, which
-- falls at every round.
unfoldable pub clear_octet : ℕ → ℕ → ℕ → ℕ × ℕ
clear_octet zero octet o = (octet, o)
clear_octet (suc fuel) octet o =
    let further = clear_octet fuel 0 (o - 8) in if ltb 8 o then further else (octet, o)

-- `*p >>= o; *p <<= o;`
abbrev pub shift_octet : ℕ × ℕ → ℕ
shift_octet (octet, o) = octet / 2 ^ o * 2 ^ o % 256

abbrev pub full_octets : Text
full_octets =
    255 ∷ 255 ∷ 255 ∷ 255 ∷ 255 ∷ 255 ∷ 255 ∷ 255 ∷ 255 ∷ 255 ∷ 255 ∷ 255 ∷ 255 ∷ 255 ∷ 255 ∷ []

-- The 16 octets of `l`.
unfoldable pub inet6_prefix : ℕ → Text
unfolding clear_octet
inet6_prefix i =
    full_octets ++ (if i == 0 then 255 else shift_octet (clear_octet 128 255 (128 - i))) ∷ []

-- `mask` and `maskstr`, or nothing where the constructor returns NULL.
abbrev pub inet_mask : Libc → Text → Option ℤ → Option (ℕ × Text)
inet_mask libc m (some (pos i)) =
    if ltb 32 i then none else some (inet_prefix i, libc.inet_ntoa (inet_prefix i))
inet_mask libc m (some (negsuc i)) = none
inet_mask libc m none = elim (libc.inet_aton m) [
  | none ↦ none
  | some a ↦ some (a, libc.inet_ntoa a)
]

abbrev pub inet6_mask : Libc → Option ℤ → Option (Text × Text)
inet6_mask libc (some (pos i)) =
    if ltb 128 i then none else some (inet6_prefix i, libc.print_int (pos i))
inet6_mask libc (some (negsuc i)) = none
inet6_mask libc none = none

abbrev pub addr_leaf : FilterType → AddrSpec → Leaf
addr_leaf f_source a = source a
addr_leaf f_dest a = dest a
addr_leaf t a = other t

abbrev pub masked : Family → Text → Mask → Option Text → AddrSpec
masked family addr m s = record { family = family; mask = m; addrstr = some addr; maskstr = s }

abbrev pub inet_spec : Text → Option (ℕ × Text) → Option AddrSpec
inet_spec addr none = none
inet_spec addr (some (bits, s)) = some (masked af_inet addr (inet bits) (some s))

abbrev pub inet6_spec : Text → Option (Text × Text) → Option AddrSpec
inet6_spec addr none = none
inet6_spec addr (some (bits, s)) = some (masked af_inet6 addr (inet6 bits) (some s))

-- The node for an address with the text of its mask.
abbrev pub host_spec : Libc → Family → Text → Option Text → Option AddrSpec
host_spec libc family addr none = some (masked family addr no_mask none)
host_spec libc af_inet addr (some m) = inet_spec addr (inet_mask libc m (str_to_int libc m))
host_spec libc af_inet6 addr (some m) = inet6_spec addr (inet6_mask libc (str_to_int libc m))
host_spec libc (af_other _) addr (some m) = none

abbrev pub host_node : FilterType → ℕ → Option AddrSpec → Filter
host_node t p none = null
host_node t p (some a) = new_filter (addr_leaf t a) p

unfoldable pub new_filter_host : Libc → FilterType → Text → Family → ℕ → Filter
unfolding cut_at str_to_int inet_prefix inet6_prefix
new_filter_host libc t matchstr family p =
    let (addr, m) = cut_at b'/' matchstr in host_node t p (host_spec libc family addr m)

-- A port as a number, and its text: the service's own name if it has one.
abbrev pub service_port : Text → Option (Text × ℕ) → ℤ × Text
service_port s none = (negsuc 0, s)
service_port s (some (name, number)) = (pos number, name)

abbrev pub port_number : Libc → Text → Option ℤ → ℤ × Text
port_number libc s (some i) = (i, s)
port_number libc s none = service_port s (libc.getservbyname s)

abbrev pub port_spec : Libc → ℤ × Text → Option Text → PortSpec
port_spec libc (imin, min) none = record {
  min = imin;
  max = imin;
  minstr = some min;
  maxstr = none;
}
port_spec libc (imin, min) (some s) =
    let (imax, max) = port_number libc s (str_to_int libc s) in
    record { min = imin; max = imax; minstr = some min; maxstr = some max }

abbrev pub port_leaf : FilterType → PortSpec → Leaf
port_leaf f_sport p = sport p
port_leaf f_dport p = dport p
port_leaf t p = other t

unfoldable pub new_filter_ports : Libc → FilterType → Text → ℕ → Filter
unfolding cut_at str_to_int
new_filter_ports libc t matchstr p =
    let (min, max) = cut_at b':' matchstr in
    new_filter (port_leaf t (port_spec libc (port_number libc min (str_to_int libc min)) max)) p
