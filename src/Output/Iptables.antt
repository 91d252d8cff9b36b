-- ===== src/Output/Iptables.antt =====
-- output/iptables/fg-iptables.c, the rule and group functions.
pub mod Match
pub mod Choice
pub mod Skeleton
pub mod Rules
pub mod Amounts
pub mod Bounds
pub mod Established
pub mod Nat
use filtergen.Base.{
  ℕ, Bool, true, false, not, ◌&&◌, ◌||◌, Option, none, some, Text, List, [], ◌∷◌, ◌++◌, codes,
  concat, is_set, text_eq, length, if◌then◌else◌,
}
use filtergen.Filter.Types.{
  FilterType, input, output, t_accept, drop, t_reject, masq, redirect, f_subgroup, f_log, localonly,
  routedonly, Family, af_inet, af_inet6, tag_eq,
}
use filtergen.Gen.Entry.{FilterEnt, Count, failed, rules, Run, Flags, Callback}
use filtergen.Gen.Check.{ipproto_tcp, ipproto_udp}
use filtergen.Base.Int.{int_is}
use filtergen.Output.Strapp.{Line, Written, oputs}
use filtergen.Output.Lines.{optional}
use filtergen.Output.Iptables.Choice.{
  Features, Made, note_protocol, note_reject, Chains, chains_of, Targets, targets_of,
}
use filtergen.Output.Iptables.Match.{
  has_ports, no_state, new_state, forward_text, return_text, behind_space,
}

-- `neednat`, and when it is refused.
abbrev pub need_nat : FilterType → Bool
need_nat target = tag_eq target masq || tag_eq target redirect

abbrev pub is_inet6 : Family → Bool
is_inet6 af_inet6 = true
is_inet6 _ = false

abbrev pub nat_misused : FilterType → FilterType → Bool
nat_misused target dir =
    (tag_eq target masq && tag_eq dir input) || (tag_eq target redirect && tag_eq dir output)

abbrev pub nat_refused : Family → FilterType → FilterType → Bool
nat_refused family target dir = need_nat target && (is_inet6 family || nat_misused target dir)

-- `needret`, after all that sets it and clears it.
abbrev pub may_return : FilterType → FilterEnt → Bool
may_return target ent =
    tag_eq target f_subgroup || (is_set ent.proto.name && has_ports ent.proto.num)

abbrev pub need_ret : Flags → FilterEnt → Bool
need_ret flags ent =
    not (tag_eq ent.target drop || tag_eq ent.target t_reject)
    && (not (flags.lstate && not (tag_eq ent.target t_reject))
        && (not ent.oneway && may_return ent.target ent))

-- `subchain` and `subtarget`: a group's name and a dash.
abbrev pub dashed : Option Text → Text
dashed none = []
dashed (some name) = name ++ codes "-"

abbrev pub sub_target : FilterEnt → Text
sub_target ent = if tag_eq ent.target f_subgroup then dashed ent.subgroup else []

-- A null pointer is not printed: it is the target of a returning rule that is not written.
abbrev pub given_text : Option Text → Text
given_text none = []
given_text (some s) = s

-- The word behind LOG.
abbrev pub log_words : Option Text → Text
log_words none = []
log_words (some m) = concat (codes " --log-prefix=" ∷ m ∷ codes "\" \"" ∷ [])

-- The rules that log, for the local and the forwarding chain.
unfoldable pub log_lines : Text → FilterEnt → Chains → List Text
unfolding forward_text
log_lines prog ent ch =
    let text = behind_space (forward_text ent ch.iface_word new_state) in
    let line = λ (chain : Text).
      concat (
        prog
        ∷ codes " -A "
        ∷ chain
        ∷ codes " "
        ∷ text
        ∷ codes " LOG"
        ∷ log_words ent.logmsg
        ∷ []) in
    optional (ent.whats_set f_log) (
      optional (not (tag_eq ent.rtype routedonly)) (line ch.rule ∷ [])
      ++ optional (not (tag_eq ent.rtype localonly)) (line ch.fwd ∷ []))

-- `%s -A %s%s %s %s%s` with the words of a rule.
abbrev pub rule_line : Text → Text → Text → Text → Text → Text → Text → Text
rule_line prog command sub chain text sub_to to =
    concat (prog ∷ command ∷ sub ∷ chain ∷ codes " " ∷ text ∷ codes " " ∷ sub_to ∷ to ∷ [])

abbrev pub nat_target : FilterType → Text
nat_target masq = codes "MASQUERADE"
nat_target _ = codes "REDIRECT"

-- The rules themselves, in the order in which they are written.
unfoldable pub rule_lines : Text → Flags → FilterEnt → Chains → Targets → List Text
unfolding forward_text return_text
rule_lines prog flags ent ch to =
    let sub = dashed ent.groupname in
    let sub_to = sub_target ent in
    let nat = behind_space (forward_text ent ch.iface_word no_state) in
    let text = behind_space (forward_text ent ch.iface_word new_state) in
    let back = behind_space (return_text ent ch.back_word) in
    let add = rule_line prog (codes " -A ") sub in
    let insert = rule_line prog (codes " -I ") sub in
    let ret = need_ret flags ent in
    optional (need_nat ent.target)
      (rule_line prog (codes " -t nat -A ") sub ch.nat nat sub_to (nat_target ent.target) ∷ [])
    ++ (optional (not (tag_eq ent.rtype routedonly)) (add ch.rule text sub_to to.rule ∷ [])
        ++ (optional ret (insert ch.rev back sub_to (given_text to.rev) ∷ [])
            ++ optional (not (tag_eq ent.rtype localonly)) (
                add ch.fwd text sub_to to.fwd
                ∷ optional ret (insert ch.fwd_rev back sub_to (given_text to.fwd_rev) ∷ []))))

-- `orules++, oprintf(...)` for each line.
abbrev pub put_lines : List Text → Made → Made
put_lines lines made = record made { written = made.written ++ lines }

-- After the switch on the direction: the features, the rules that log, the switch on the target,
-- and the rules.
abbrev pub put_targets : Text → Flags → FilterEnt → Chains → Option Targets → Run Made
put_targets prog flags ent ch none made = (put_lines (log_lines prog ent ch) made, failed)
put_targets prog flags ent ch (some to) made =
    let logs = log_lines prog ent ch in
    let lines = rule_lines prog flags ent ch to in
    let noted = record made { feat = note_reject ent.target made.feat } in
    (put_lines lines (put_lines logs noted), rules (length (logs ++ lines)))

abbrev pub put_chains : Text → Flags → FilterEnt → Option Chains → Run Made
put_chains prog flags ent none made = (made, failed)
put_chains prog flags ent (some ch) made =
    put_targets prog flags ent ch (targets_of ent.target ent.direction)
      (record made { feat = note_protocol ent made.feat })

unfoldable pub iptables_rule_common : Text → Family → Flags → FilterEnt → Run Made
unfolding chains_of targets_of log_lines rule_lines
iptables_rule_common prog family flags ent made =
    if nat_refused family ent.target ent.direction
    then (made, failed)
    else put_chains prog flags ent (chains_of ent.direction) made

abbrev pub iptables : Text
iptables = codes "/sbin/iptables"

abbrev pub ip6tables : Text
ip6tables = codes "/sbin/ip6tables"

abbrev pub iptables_group : Text → Text → Made → Made
iptables_group prog name = put_lines (
    concat (
      codes "for f in INPUT OUTPUT FORWARD FORW_OUT; do "
      ∷ prog
      ∷ codes " -N "
      ∷ name
      ∷ codes "-$f; done"
      ∷ [])
    ∷ [])

abbrev pub cb_iptables : Text → Family → Flags → Callback Made
cb_iptables prog family flags = record {
  rule = iptables_rule_common prog family flags;
  group = some (iptables_group prog);
  flags = flags;
}
