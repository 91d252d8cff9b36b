-- ===== src/Output/Cisco.antt =====
-- output/cisco/fg-cisco.c.
pub mod Rules
pub mod Negation
use filtergen.Base.{
  ℕ, Bool, true, false, not, ◌&&◌, ◌||◌, Option, none, some, is_set, Text, [], ◌∷◌, codes,
  if◌then◌else◌,
}
use filtergen.Base.Int.{ℤ, int_is}
use filtergen.Base.Outcome.{Outcome, ok, ◌>>=◌}
use filtergen.Filter.Types.{
  FilterType, input, output, t_accept, drop, t_reject, f_log, f_sport, f_dport, AddrSpec, PortSpec,
}
use filtergen.Filter.Tree.{Filter}
use filtergen.Filter.Groups.{filter_nogroup}
use filtergen.Filter.Targets.{filter_unroll}
use filtergen.Gen.Entry.{FilterEnt, Count, failed, aborted, rules, Flags, Callback}
use filtergen.Gen.Check.{ipproto_tcp, ipproto_udp}
use filtergen.Gen.Apply.{filtergen_cprod}
use filtergen.Output.Strapp.{Line, Written, app, app_word, app_words, apps, strapp, oputs}

-- `appip`.
abbrev pub appip_given : Line → Text → Line → Line
appip_given r addr none = app (app_word r (codes "host ")) addr
appip_given r addr (some m) = app_words r addr (some m)

unfoldable pub appip : Line → AddrSpec → Line
appip r h = elim h.addrstr [
  | none ↦ app_word r (codes "any")
  | some addr ↦ appip_given r addr h.maskstr
]

-- `appport`. `none` is the call of `abort()` on a negated range.
abbrev pub appport_given : Line → Text → Line → Bool → Option Line
appport_given r min none neg =
    some (app (app_word r (if neg then codes "ne " else codes "eq ")) min)
appport_given r min (some max) true = none
appport_given r min (some max) false = some (app_words (app_word r (codes "range")) min (some max))

unfoldable pub appport : Line → PortSpec → Bool → Option Line
appport r p neg = elim p.minstr [
  | none ↦ some (app_word r (codes "any"))
  | some min ↦ appport_given r min p.maxstr neg
]

-- `APP2(rule, ent->iface, "-")` if there is an interface.
abbrev pub list_name : Line → Option Text → Line
list_name r none = r
list_name r (some i) = app (app r i) (codes "-")

-- The words of the switch on the direction, for the rule and for the returning rule.
unfoldable pub list_words : FilterType → Option (Text × Text)
list_words input = some (codes "IN", codes "OUT")
list_words output = some (codes "OUT", codes "IN")
list_words _ = none

-- The word of the switch on the target.
unfoldable pub target_word : FilterType → Option Text
target_word t_accept = some (codes "permit")
target_word drop = some (codes "deny")
target_word t_reject = some (codes "deny")
target_word _ = none

-- `needret` after the switch on the protocol, and `needports`.
abbrev pub returns_of : Option Text → ℤ → Bool
returns_of none num = false
returns_of (some _) num = int_is num ipproto_tcp || int_is num ipproto_udp

abbrev pub ports_of : Option Text → ℤ → Bool
ports_of none num = true
ports_of (some _) num = int_is num ipproto_tcp || int_is num ipproto_udp

abbrev pub protocol_word : Option Text → Text
protocol_word none = codes "ip"
protocol_word (some name) = name

-- A rule up to its ports: the list's name, the target, the protocol and the two addresses.
unfoldable pub rule_head : FilterEnt → Text → Text → AddrSpec → AddrSpec → Line
unfolding strapp appip
rule_head ent list target from to =
    let named = app (list_name (app none (codes "access-list ")) ent.iface) list in
    appip (appip (app_word (app_word named target) (protocol_word ent.proto.name)) from) to

-- The two port conditions, if there are any.
abbrev pub and_port : Option Line → PortSpec → Bool → Option Line
and_port none p neg = none
and_port (some r) p neg = appport r p neg

abbrev pub with_ports : Bool → Line → PortSpec → Bool → PortSpec → Bool → Option Line
with_ports needports r p p_neg q q_neg =
    if needports then and_port (appport r p p_neg) q q_neg else some r

-- The end of the function: `established`, `log`, and the lines that are written.
abbrev pub established : FilterEnt → Line → Line
established ent rule_r =
    if int_is ent.proto.num ipproto_tcp then app_word rule_r (codes "established") else rule_r

abbrev pub logged : FilterEnt → Line → Line
logged ent rule = if ent.whats_set f_log then app_word rule (codes "log") else rule

abbrev pub put_both : Bool → Line → Line → Written → Written × Count
put_both needret rule rule_r out =
    if needret then (oputs rule_r (oputs rule out), rules 2) else (oputs rule out, rules 1)

abbrev pub put_rules : FilterEnt → Option Line → Option Line → Written → Written × Count
put_rules ent none rule_r out = (out, aborted)
put_rules ent (some rule) none out = (out, aborted)
put_rules ent (some rule) (some rule_r) out =
    put_both (returns_of ent.proto.name ent.proto.num && not ent.oneway) (logged ent rule)
      (established ent rule_r) out

abbrev pub cisco_lines : FilterEnt → Option (Text × Text) → Option Text → Written → Written × Count
cisco_lines ent none target out = (out, failed)
cisco_lines ent (some (list, list_r)) none out = (out, failed)
cisco_lines ent (some (list, list_r)) (some target) out =
    let needports = ports_of ent.proto.name ent.proto.num in
    let neg_src = ent.whats_negated f_sport in
    let neg_dst = ent.whats_negated f_dport in
    put_rules ent
      (with_ports needports (rule_head ent list target ent.srcaddr ent.dstaddr) ent.src neg_src
        ent.dst neg_dst)
      (with_ports needports (rule_head ent list_r target ent.dstaddr ent.srcaddr) ent.dst neg_dst
        ent.src neg_src)
      out

unfoldable pub cb_cisco_rule : FilterEnt → Written → Written × Count
unfolding list_words target_word rule_head appport oputs
cb_cisco_rule ent = cisco_lines ent (list_words ent.direction) (target_word ent.target)

abbrev pub cb_cisco : Flags → Callback Written
cb_cisco flags = record { rule = cb_cisco_rule; group = none; flags = flags }

abbrev pub cisco_warning : Text
cisco_warning = codes "# Warning: This backend is not complete and can generate broken rulesets."

unfoldable pub fg_cisco : Filter → Flags → Written → Outcome (Written × Count)
unfolding oputs
fg_cisco filter flags out = do
  let warned = oputs (some cisco_warning) out
  unrolled ← filter_unroll (filter_nogroup filter)
  ok (filtergen_cprod (cb_cisco flags) unrolled warned)
