-- ===== src/Output/Ipfilter.antt =====
-- output/ipfilter/fg-ipfilter.c.
pub mod Rules
use filtergen.Base.{
  Bool, true, false, not, ◌&&◌, Option, none, some, is_set, Text, [], ◌∷◌, ◌++◌, codes,
  if◌then◌else◌,
}
use filtergen.Base.Int.{ℤ, int_is}
use filtergen.Base.Outcome.{Outcome, ok, ◌>>=◌}
use filtergen.Filter.Types.{
  FilterType, input, output, t_accept, drop, t_reject, f_log, f_sport, f_dport, f_icmptype,
  AddrSpec, PortSpec, tag_eq,
}
use filtergen.Filter.Tree.{Filter}
use filtergen.Filter.Groups.{filter_nogroup}
use filtergen.Filter.Targets.{filter_unroll}
use filtergen.Gen.Entry.{FilterEnt, Count, failed, rules, Flags, Callback}
use filtergen.Gen.Check.{ipproto_tcp}
use filtergen.Gen.Apply.{filtergen_cprod}
use filtergen.Output.Strapp.{Line, Written, app, app_word, app_words, apps, strapp, oputs}

-- `appip`. The text of a null pointer is not looked at.
abbrev pub appip_given : Line → Text → Line → Line
appip_given r addr none = app_word r addr
appip_given r addr (some m) = app (app (app_word r addr) (codes "/")) m

unfoldable pub appip : Line → AddrSpec → Line
appip r h = elim h.addrstr [
  | none ↦ app_word r (codes "any")
  | some addr ↦ appip_given r addr h.maskstr
]

-- `appport`.
abbrev pub appport_given : Line → Text → Line → Bool → Line
appport_given r min none neg =
    app_words (app_word r (codes "port")) (if neg then codes "!=" else codes "=") (some min)
appport_given r min (some max) neg =
    app_words (app_word (app_word r (codes "port")) min) (if neg then codes "><" else codes "<>")
      (some max)

unfoldable pub appport : Line → PortSpec → Bool → Line
appport r p neg = elim p.minstr [ none ↦ r | some min ↦ appport_given r min p.maxstr neg ]

-- `appicmp`.
unfoldable pub appicmp : Line → Option Text → Bool → Line
appicmp r none neg = r
appicmp r (some h) neg =
    app_words (if neg then app_word r (codes "!") else r) (codes "icmp-type") (some h)

-- The first switch, on the target.
unfoldable pub target_words : FilterType → ℤ → Option Line
target_words t_accept num = some (some (codes "pass"))
target_words drop num = some (some (codes "block"))
target_words t_reject num = some (
    some (
      if int_is num ipproto_tcp
      then codes "block return-rst"
      else codes "block return-icmp-as-dest(port-unr)"))
target_words _ num = none

-- The second switch, on the direction.
unfoldable pub direction_word : FilterType → Option Text
direction_word input = some (codes "in")
direction_word output = some (codes "out")
direction_word _ = none

abbrev pub app_given : Line → Text → Line → Line
app_given r word none = r
app_given r word (some s) = app_words r word (some s)

-- From the `log` word to the source port.
unfoldable pub source_text : FilterEnt → Line → Line
unfolding strapp appip appport
source_text ent start =
    let logged = if ent.whats_set f_log then app_word start (codes "log") else start in
    let quick = app_word logged (codes "quick") in
    let on = app_given quick (codes "on") ent.iface in
    let proto = app_given on (codes "proto") ent.proto.name in
    appport (appip (app_word proto (codes "from")) ent.srcaddr) ent.src (ent.whats_negated f_sport)

-- From the word `to` to the ICMP type.
unfoldable pub dest_text : FilterEnt → Line → Line
unfolding strapp appip appport appicmp
dest_text ent r =
    appicmp
      (appport (appip (app_word r (codes "to")) ent.dstaddr) ent.dst (ent.whats_negated f_dport))
      ent.icmp (ent.whats_negated f_icmptype)

unfoldable pub keep_state : FilterEnt → Line → Line
unfolding strapp
keep_state ent r =
    if is_set ent.proto.name && (tag_eq ent.target t_accept && not ent.oneway)
    then app_word r (codes "keep state")
    else r

-- Everything behind the direction.
unfoldable pub rule_text : FilterEnt → Line → Line
unfolding source_text dest_text keep_state
rule_text ent start = keep_state ent (dest_text ent (source_text ent start))

abbrev pub put_rule : FilterEnt → Option Line → Option Text → Written → Written × Count
put_rule ent none d out = (out, failed)
put_rule ent (some start) none out = (out, failed)
put_rule ent (some start) (some word) out =
    (oputs (rule_text ent (app_word start word)) out, rules 1)

unfoldable pub cb_ipfilter_rule : FilterEnt → Written → Written × Count
unfolding target_words direction_word rule_text oputs
cb_ipfilter_rule ent =
    put_rule ent (target_words ent.target ent.proto.num) (direction_word ent.direction)

abbrev pub cb_ipfilter : Flags → Callback Written
cb_ipfilter flags = record { rule = cb_ipfilter_rule; group = none; flags = flags }

unfoldable pub fg_ipfilter : Filter → Flags → Written → Outcome (Written × Count)
fg_ipfilter filter flags out = do
  unrolled ← filter_unroll (filter_nogroup filter)
  ok (filtergen_cprod (cb_ipfilter flags) unrolled out)
