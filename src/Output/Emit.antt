-- ===== src/Output/Emit.antt =====
-- output/filtergen/emit.c.
pub mod Rules
use filtergen.Base.{Bool, Option, none, some, Text, [], ◌∷◌, codes, if◌then◌else◌}
use filtergen.Base.Outcome.{Outcome, ok, ◌>>=◌}
use filtergen.Filter.Types.{
  FilterType, input, output, t_accept, drop, t_reject, f_log, AddrSpec, PortSpec,
}
use filtergen.Filter.Tree.{Filter}
use filtergen.Filter.Groups.{filter_nogroup}
use filtergen.Filter.Targets.{filter_unroll}
use filtergen.Gen.Entry.{FilterEnt, Count, rules, Flags, Callback}
use filtergen.Gen.Apply.{filtergen_cprod}
use filtergen.Output.Strapp.{Line, Written, app, app_word, app_words, apps, strapp, oputs}

-- `APPSS2(rule, word, s)` if `s` is given, and a second part behind a separator if that is given.
abbrev pub app_part : Line → Text → Option Text → Line
app_part r sep none = r
app_part r sep (some t) = app (app r sep) t

abbrev pub app_option : Line → Text → Option Text → Text → Option Text → Line
app_option r word none sep t = r
app_option r word (some s) sep t = app_part (app_words r word (some s)) sep t

abbrev pub direction_words : FilterType → Option Text → Line → Line
direction_words input iface r = app_words r (codes "input") iface
direction_words output iface r = app_words r (codes "output") iface
direction_words _ iface r = r

abbrev pub target_words : FilterType → Line → Line
target_words t_accept r = app_word r (codes "accept")
target_words drop r = app_word r (codes "drop")
target_words t_reject r = app_word r (codes "reject")
target_words _ r = r

unfoldable pub emit_text : FilterEnt → Line
unfolding strapp
emit_text ent =
    let dir = direction_words ent.direction ent.iface none in
    let from =
      app_option dir (codes "source") ent.srcaddr.addrstr (codes "/") ent.srcaddr.maskstr in
    let to = app_option from (codes "dest") ent.dstaddr.addrstr (codes "/") ent.dstaddr.maskstr in
    let proto = app_option to (codes "proto") ent.proto.name (codes "") none in
    let sport = app_option proto (codes "sport") ent.src.minstr (codes ":") ent.src.maxstr in
    let dport = app_option sport (codes "dport") ent.dst.minstr (codes ":") ent.dst.maxstr in
    let icmp = app_option dport (codes "icmptype") ent.icmp (codes "") none in
    let logged = if ent.whats_set f_log then app_word icmp (codes "log") else icmp in
    app_word (target_words ent.target logged) (codes ";")

unfoldable pub out_filtergen_rule : FilterEnt → Written → Written × Count
unfolding emit_text oputs
out_filtergen_rule ent out = (oputs (emit_text ent) out, rules 1)

abbrev pub out_filtergen_cb : Flags → Callback Written
out_filtergen_cb flags = record { rule = out_filtergen_rule; group = none; flags = flags }

unfoldable pub emit_filtergen : Filter → Flags → Written → Outcome (Written × Count)
emit_filtergen filter flags out = do
  unrolled ← filter_unroll (filter_nogroup filter)
  ok (filtergen_cprod (out_filtergen_cb flags) unrolled out)
