-- ===== src/Output/Restore.antt =====
-- output/iptablesrestore/fg-iptablesrestore.c, the rule and group functions. Much of the C code is a
-- copy of fg-iptables.c: the names here that stand for such a copy are those of Output/Iptables.
pub mod Skeleton
pub mod Bounds
pub mod Agrees
pub mod Drops
use filtergen.Base.{
  ℕ, Bool, true, false, not, ◌&&◌, Option, none, some, Text, List, [], ◌∷◌, ◌++◌, codes, concat,
  length, if◌then◌else◌,
}
use filtergen.Base.Int.{ℤ}
use filtergen.Filter.Types.{
  FilterType, t_accept, drop, t_reject, masq, redirect, f_subgroup, f_log, localonly, routedonly,
  Family, tag_eq,
}
use filtergen.Gen.Entry.{FilterEnt, Count, failed, rules, Run, Flags, Callback}
use filtergen.Output.Strapp.{Line}
use filtergen.Output.Lines.{optional}
use filtergen.Output.Iptables.Match.{
  forward_text as match_text, return_text as back_text, new_state, no_state, behind_space,
}
use filtergen.Output.Iptables.Choice.{
  Features, Made, note_protocol as note_protocol_of, note_reject as note_reject_of, Chains,
  chains_of as directions, Targets, accepting, grouped,
}
use filtergen.Output.Iptables.{
  need_nat, nat_refused as is_nat_refused, need_ret as is_ret_needed, dashed, sub_target,
  given_text, nat_target, put_lines,
}

-- The copies.
abbrev pub forward_text : FilterEnt → Text → (ℤ → Line → Line) → Line
forward_text = match_text

abbrev pub return_text : FilterEnt → Text → Line
return_text = back_text

abbrev pub chains_of : FilterType → Option Chains
chains_of = directions

abbrev pub nat_refused : Family → FilterType → FilterType → Bool
nat_refused = is_nat_refused

abbrev pub need_ret : Flags → FilterEnt → Bool
need_ret = is_ret_needed

abbrev pub note_protocol : FilterEnt → Features → Features
note_protocol = note_protocol_of

abbrev pub note_reject : FilterType → Features → Features
note_reject = note_reject_of

-- The switch on the target. DROP and REJECT are the same for both directions.
abbrev pub refusing : Text → Targets
refusing word = record { rule = word; rev = none; fwd = word; fwd_rev = none }

unfoldable pub targets_of : FilterType → FilterType → Option Targets
targets_of masq dir = some (accepting dir)
targets_of redirect dir = some (accepting dir)
targets_of t_accept dir = some (accepting dir)
targets_of drop dir = some (refusing (codes "DROP"))
targets_of t_reject dir = some (refusing (codes "REJECT"))
targets_of f_subgroup dir = some (grouped dir)
targets_of _ dir = none

abbrev pub log_words : Option Text → Text
log_words none = []
log_words (some m) = concat (codes " --log-prefix \"" ∷ m ∷ codes " \"" ∷ [])

unfoldable pub log_lines : FilterEnt → Chains → List Text
unfolding match_text
log_lines ent ch =
    let text = behind_space (forward_text ent ch.iface_word new_state) in
    let line = λ (chain : Text).
      concat (codes "-A " ∷ chain ∷ codes " " ∷ text ∷ codes " LOG" ∷ log_words ent.logmsg ∷ []) in
    optional (ent.whats_set f_log) (
      optional (not (tag_eq ent.rtype routedonly)) (line ch.rule ∷ [])
      ++ optional (not (tag_eq ent.rtype localonly)) (line ch.fwd ∷ []))

abbrev pub rule_line : Text → Text → Text → Text → Text → Text → Text
rule_line command sub chain text sub_to to =
    concat (command ∷ sub ∷ chain ∷ codes " " ∷ text ∷ codes " " ∷ sub_to ∷ to ∷ [])

-- The NAT rule stands in a table of its own: `oputs("COMMIT\n")` writes an empty line too.
unfoldable pub nat_lines : FilterEnt → Chains → List Text
unfolding match_text
nat_lines ent ch =
    let text = behind_space (forward_text ent ch.iface_word no_state) in
    optional (need_nat ent.target) (
      codes "COMMIT"
      ∷ []
      ∷ codes "*nat"
      ∷ rule_line (codes "-A ") (dashed ent.groupname) ch.nat text (sub_target ent)
          (nat_target ent.target)
      ∷ codes "COMMIT"
      ∷ []
      ∷ codes "*filter"
      ∷ [])

unfoldable pub filter_lines : Flags → FilterEnt → Chains → Targets → List Text
unfolding match_text back_text
filter_lines flags ent ch to =
    let sub = dashed ent.groupname in
    let sub_to = sub_target ent in
    let text = behind_space (forward_text ent ch.iface_word new_state) in
    let back = behind_space (return_text ent ch.back_word) in
    let add = rule_line (codes "-A ") sub in
    let insert = rule_line (codes "-I ") sub in
    let ret = need_ret flags ent in
    optional (not (tag_eq ent.rtype routedonly)) (add ch.rule text sub_to to.rule ∷ [])
    ++ (optional ret (insert ch.rev back sub_to (given_text to.rev) ∷ [])
        ++ optional (not (tag_eq ent.rtype localonly)) (
            add ch.fwd text sub_to to.fwd
            ∷ optional ret (insert ch.fwd_rev back sub_to (given_text to.fwd_rev) ∷ [])))

-- `orules`: the lines that log, one for the NAT rule, and the rules.
abbrev pub rule_count : Flags → FilterEnt → Chains → Targets → ℕ
rule_count flags ent ch to =
    length (
      log_lines ent ch
      ++ (optional (need_nat ent.target) ([] ∷ []) ++ filter_lines flags ent ch to))

abbrev pub put_targets : Flags → FilterEnt → Chains → Option Targets → Run Made
put_targets flags ent ch none made = (put_lines (log_lines ent ch) made, failed)
put_targets flags ent ch (some to) made =
    let noted = record made { feat = note_reject ent.target made.feat } in
    (
      put_lines (log_lines ent ch ++ (nat_lines ent ch ++ filter_lines flags ent ch to)) noted,
      rules (rule_count flags ent ch to),
    )

abbrev pub put_chains : Flags → FilterEnt → Option Chains → Run Made
put_chains flags ent none made = (made, failed)
put_chains flags ent (some ch) made =
    put_targets flags ent ch (targets_of ent.target ent.direction)
      (record made { feat = note_protocol ent made.feat })

unfoldable pub iptrestore_rule_common : Family → Flags → FilterEnt → Run Made
unfolding directions targets_of log_lines nat_lines filter_lines
iptrestore_rule_common family flags ent made =
    if nat_refused family ent.target ent.direction
    then (made, failed)
    else put_chains flags ent (chains_of ent.direction) made

unfoldable pub iptrestore_group : Text → Made → Made
iptrestore_group name =
    let line = λ (chain : Text). concat (codes "-N " ∷ name ∷ codes "-" ∷ chain ∷ []) in
    put_lines (
      line (codes "INPUT")
      ∷ line (codes "OUTPUT")
      ∷ line (codes "FORWARD")
      ∷ line (codes "FORW_OUT")
      ∷ [])

abbrev pub cb_iptrestore : Family → Flags → Callback Made
cb_iptrestore family flags = record {
  rule = iptrestore_rule_common family flags;
  group = some iptrestore_group;
  flags = flags;
}
