-- ===== src/Output/Ipchains.antt =====
-- output/ipchains/fg-ipchains.c. The texts of addresses, ports and protocols are grown as in
-- fg-iptables.c. What `printf` writes for `%s` and a null pointer is a parameter.
pub mod Choice
pub mod Rules
use filtergen.Base.{
  ℕ, Bool, true, false, not, ◌&&◌, ◌||◌, Option, none, some, is_set, Text, List, [], ◌∷◌, ◌++◌,
  codes, concat, length, if◌then◌else◌,
}
use filtergen.Base.Int.{ℤ, int_is}
use filtergen.Base.Outcome.{Outcome, ok, ◌>>=◌}
use filtergen.Filter.Types.{
  FilterType, input, output, t_accept, drop, t_reject, masq, redirect, f_subgroup, f_log, localonly,
  routedonly, tag_eq,
}
use filtergen.Filter.Tree.{Filter}
use filtergen.Filter.Targets.{filter_unroll}
use filtergen.Gen.Entry.{FilterEnt, Count, failed, rules, Run, Flags, Callback}
use filtergen.Gen.Check.{ipproto_tcp}
use filtergen.Gen.Apply.{filtergen_cprod}
use filtergen.Output.Strapp.{Line, Written, app_word}
use filtergen.Output.Lines.{optional}
use filtergen.Output.Ipchains.Choice.{Chains, chains_of, Targets, targets_of}
use filtergen.Output.Iptables.Match.{conditions, back_conditions, no_state, has_ports, behind_space}
use filtergen.Output.Iptables.{dashed, sub_target, rule_line, may_return as returns, nat_misused}

abbrev pub ipchains : Text
ipchains = codes "/sbin/ipchains"

-- The rule's text, with the word that logs, and the text for returning packets.
abbrev pub no_syn : ℤ → Line → Line
no_syn num r = if int_is num ipproto_tcp then app_word r (codes "! --syn") else r

unfoldable pub rule_text : FilterEnt → Text
unfolding conditions
rule_text ent =
    let text = conditions ent (codes "-i") no_state in
    let logged = if ent.whats_set f_log then app_word text (codes "-l") else text in
    behind_space (app_word logged (codes "-j"))

unfoldable pub back_text : FilterEnt → Text
unfolding back_conditions
back_text ent = behind_space (app_word (back_conditions ent (codes "-i") no_syn) (codes "-j"))

abbrev pub may_return : FilterType → FilterEnt → Bool
may_return = returns

-- `needret`, after all that sets it and clears it.
abbrev pub need_ret : FilterEnt → Bool
need_ret ent =
    not (tag_eq ent.target drop || tag_eq ent.target t_reject)
    && (not ent.oneway && may_return ent.target ent)

-- The returns of -1 before anything is written.
abbrev pub refused : FilterEnt → Bool
refused ent = nat_misused ent.target ent.direction || tag_eq ent.rtype routedonly

abbrev pub or_null : Text → Option Text → Text
or_null null_text none = null_text
or_null null_text (some s) = s

unfoldable pub rule_lines : Text → FilterEnt → Chains → Targets → List Text
unfolding rule_text back_text
rule_lines null_text ent ch to =
    let sub = dashed ent.groupname in
    let sub_to = sub_target ent in
    let add = λ (chain target : Text).
      rule_line ipchains (codes " -A ") sub chain (rule_text ent) sub_to target in
    let insert = λ (chain target : Text).
      rule_line ipchains (codes " -I ") sub chain (back_text ent) sub_to target in
    let ret = need_ret ent in
    add ch.rule to.rule ∷ optional ret (insert ch.rev (or_null null_text to.rev) ∷ [])
    ++ optional (not (tag_eq ent.rtype localonly)) (
        add ch.fwd (or_null null_text to.fwd)
        ∷ optional ret (insert ch.fwd_rev (or_null null_text to.fwd_rev) ∷ []))

abbrev pub put_targets : Text → FilterEnt → Chains → Option Targets → Run Written
put_targets null_text ent ch none out = (out, failed)
put_targets null_text ent ch (some to) out =
    (out ++ rule_lines null_text ent ch to, rules (length (rule_lines null_text ent ch to)))

abbrev pub put_chains : Text → FilterEnt → Option Chains → Run Written
put_chains null_text ent none out = (out, failed)
put_chains null_text ent (some ch) out =
    put_targets null_text ent ch (targets_of ent.target ent.direction) out

unfoldable pub cb_ipchains_rule : Text → FilterEnt → Run Written
unfolding chains_of targets_of rule_lines
cb_ipchains_rule null_text ent out =
    if refused ent
    then (out, failed)
    else put_chains null_text ent (chains_of ent.target ent.direction) out

abbrev pub cb_ipchains_group : Text → Written → Written
cb_ipchains_group name out =
    out
    ++ concat (
        codes "for f in input output forward forw_out; do "
        ∷ ipchains
        ∷ codes " -N "
        ∷ name
        ∷ codes "-${f}; done"
        ∷ [])
      ∷ []

abbrev pub cb_ipchains : Text → Flags → Callback Written
cb_ipchains null_text flags = record {
  rule = cb_ipchains_rule null_text;
  group = some cb_ipchains_group;
  flags = flags;
}

abbrev pub clear : Text
clear = concat (ipchains ∷ codes " -F; " ∷ ipchains ∷ codes " -X" ∷ [])

abbrev pub skeleton : List Text
skeleton =
    concat (codes "for f in INPUT OUTPUT FORWARD; do " ∷ ipchains ∷ codes " -P $f DENY; done" ∷ [])
    ∷ clear
    ∷ concat (ipchains ∷ codes " -N forw_out" ∷ [])
    ∷ []

unfoldable pub fg_ipchains : Text → Filter → Flags → Written → Outcome (Written × Count)
fg_ipchains null_text filter flags out = do
  unrolled ← filter_unroll filter
  ok (
      filtergen_cprod (cb_ipchains null_text flags) unrolled
        (out ++ optional (not flags.noskel) skeleton))

-- `flush_ipchains`.
unfoldable pub policy_word : FilterType → Option Text
policy_word t_accept = some (codes "ACCEPT")
policy_word drop = some (codes "DENY")
policy_word t_reject = some (codes "REJECT")
policy_word _ = none

abbrev pub flush_lines : Option Text → List Text
flush_lines none = []
flush_lines (some word) =
    concat (codes "for f in $CHAINS; do " ∷ ipchains ∷ codes " -P $f " ∷ word ∷ codes "; done" ∷ [])
    ∷ clear
    ∷ []

abbrev pub flushed : Option Text → Count
flushed none = failed
flushed (some _) = rules 0

unfoldable pub flush_ipchains : FilterType → Written → Written × Count
unfolding policy_word
flush_ipchains policy out = (
  out ++ codes "CHAINS=\"INPUT OUTPUT FORWARD\"" ∷ [] ∷ flush_lines (policy_word policy),
  flushed (policy_word policy),
)
