-- ===== src/Output/Iptables/Match.antt =====
-- output/iptables/fg-iptables.c, the three texts that `cb_iptables_rule_common` grows side by side:
-- the rule, the rule for returning packets, and the NAT rule.
use filtergen.Base.{Bool, ◌||◌, Option, none, some, Text, [], ◌∷◌, codes, text_eq, if◌then◌else◌}
use filtergen.Base.Int.{ℤ, int_is}
use filtergen.Filter.Types.{
  FilterType, f_direction, f_source, f_dest, f_sport, f_dport, f_icmptype, AddrSpec, PortSpec,
}
use filtergen.Gen.Entry.{FilterEnt}
use filtergen.Gen.Check.{ipproto_tcp, ipproto_udp, ipproto_icmp}
use filtergen.Output.Strapp.{Line, app, app_word, app_words, strapp}

-- `appip` and `appport`, for a string that is given and one that may be.
abbrev pub app_pair : Text → Line → Text → Option Text → Line
app_pair sep r s none = app_word r s
app_pair sep r s (some t) = app (app (app_word r s) sep) t

abbrev pub appip : Line → Text → Option Text → Line
appip = app_pair (codes "/")

abbrev pub appport : Line → Text → Option Text → Line
appport = app_pair (codes ":")

-- `NEGA(l, t)`.
abbrev pub nega : FilterEnt → FilterType → Line → Line
nega ent t l = if ent.whats_negated t then app_word l (codes "!") else l

-- `NEGA(l, t); APPIP2(word, l, addr)` if there is an address, and the same for ports.
abbrev pub app_addr : FilterEnt → FilterType → Text → AddrSpec → Line → Line
app_addr ent t word h r = elim h.addrstr [
  | none ↦ r
  | some addr ↦ appip (app_word (nega ent t r) word) addr h.maskstr
]

abbrev pub app_ports : FilterEnt → FilterType → Text → PortSpec → Line → Line
app_ports ent t word h r = elim h.minstr [
  | none ↦ r
  | some min ↦ appport (app_word (nega ent t r) word) min h.maxstr
]

-- The switch on the protocol number behind the addresses; the text for returning packets has no
-- ICMP type.
abbrev pub has_ports : ℤ → Bool
has_ports num = int_is num ipproto_udp || int_is num ipproto_tcp

abbrev pub app_icmp : FilterEnt → Line → Line
app_icmp ent r = elim ent.icmp [
  | none ↦ r
  | some i ↦ app_words (nega ent f_icmptype r) (codes "--icmp-type") (some i)
]

-- The interface, if it is given and not `*`.
abbrev pub app_iface : FilterEnt → Text → Line → Line
app_iface ent word r = elim ent.iface [
  | none ↦ r
  | some i ↦ if text_eq i (codes "*") then r else app_words (nega ent f_direction r) word (some i)
]

-- The protocol with what follows its name.
abbrev pub app_proto : FilterEnt → (ℤ → Line → Line) → Line → Line
app_proto ent more r = elim ent.proto.name [
  | none ↦ r
  | some p ↦ more ent.proto.num (app_words r (codes "-p") (some p))
]

abbrev pub no_state : ℤ → Line → Line
no_state num r = r

abbrev pub new_state : ℤ → Line → Line
new_state num r =
    if has_ports num then app_word r (codes "-m conntrack --ctstate NEW,ESTABLISHED") else r

abbrev pub old_state : ℤ → Line → Line
old_state num r =
    let syn = if int_is num ipproto_tcp then app_word r (codes "! --syn") else r in
    if has_ports num then app_word syn (codes "-m conntrack --ctstate ESTABLISHED") else syn

-- The conditions, in the direction of the rule and against it.
unfoldable pub conditions : FilterEnt → Text → (ℤ → Line → Line) → Line
unfolding strapp text_eq
conditions ent word state =
    let head = app_proto ent state (app_iface ent word none) in
    let from = app_addr ent f_source (codes "-s") ent.srcaddr head in
    let to = app_addr ent f_dest (codes "-d") ent.dstaddr from in
    if has_ports ent.proto.num
    then app_ports ent f_dport (codes "--dport") ent.dst
        (app_ports ent f_sport (codes "--sport") ent.src to)
    else if int_is ent.proto.num ipproto_icmp
    then app_icmp ent to
    else to

unfoldable pub back_conditions : FilterEnt → Text → (ℤ → Line → Line) → Line
unfolding strapp text_eq
back_conditions ent word state =
    let head = app_proto ent state (app_iface ent word none) in
    let from = app_addr ent f_source (codes "-d") ent.srcaddr head in
    let to = app_addr ent f_dest (codes "-s") ent.dstaddr from in
    if has_ports ent.proto.num
    then app_ports ent f_dport (codes "--sport") ent.dst
        (app_ports ent f_sport (codes "--dport") ent.src to)
    else to

-- The texts up to `-j`.
unfoldable pub forward_text : FilterEnt → Text → (ℤ → Line → Line) → Line
unfolding conditions
forward_text ent word state = app_word (conditions ent word state) (codes "-j")

unfoldable pub return_text : FilterEnt → Text → Line
unfolding back_conditions
return_text ent word = app_word (back_conditions ent word old_state) (codes "-j")

-- `rule + 1`: the text without the space that it begins with.
abbrev pub behind_space : Line → Text
behind_space none = []
behind_space (some []) = []
behind_space (some (_ ∷ s)) = s
