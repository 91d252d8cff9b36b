-- ===== src/Output/Ipchains/Rules.antt =====
-- What `cb_ipchains_rule` writes for one entry.
use filtergen.Base.{
  length-append, Bool, true, false, Option, none, some, [], ◌∷◌, ◌++◌, Text, codes, length,
  if◌then◌else◌, ◌≡◌, ◌≢◌, refl, arith,
}
use filtergen.Filter.Types.{output, masq, yyeof}
use filtergen.Filter.Tree.{Filter}
use filtergen.Gen.Entry.{FilterEnt, Flags, failed, rules}
use filtergen.Gen.Apply.{filtergen_cprod}
use filtergen.Gen.Apply.Counts.{IsProductive}
use filtergen.Gen.Apply.Counting.{Counted, GroupsGive, GroupsGive-never, cprod_over-Counted}
use filtergen.Output.Strapp.{Written}
use filtergen.Output.Iptables.{dashed, rule_line}
use filtergen.Output.Ipchains.Choice.{Chains, Targets, chains_of, targets_of}
use filtergen.Output.Ipchains.{
  refused, rule_text, rule_lines, put_targets, put_chains, cb_ipchains_rule, cb_ipchains, ipchains,
}

module _ (null_text : Text) (ent : FilterEnt) where
  targets-Counted :
      (ch : Chains) (to : Option Targets) (out : Written)
      → Counted length out (put_targets null_text ent ch to out)
  targets-Counted ch none out = tt
  targets-Counted ch (some to) out = length-append out (rule_lines null_text ent ch to)

  chains-Counted :
      (ch : Option Chains) (out : Written) → Counted length out (put_chains null_text ent ch out)
  chains-Counted none out = tt
  chains-Counted (some ch) out = targets-Counted ch (targets_of ent.target ent.direction) out

  refused-Counted :
      (b : Bool) (out : Written)
      → Counted length out (
          if b
          then (out, failed)
          else put_chains null_text ent (chains_of ent.target ent.direction) out)
  refused-Counted true out = tt
  refused-Counted false out = chains-Counted (chains_of ent.target ent.direction) out

  rule-Counted : (out : Written) → Counted length out (cb_ipchains_rule null_text ent out)
  unfolding cb_ipchains_rule
  rule-Counted out = refused-Counted (refused ent) out

  lines-HasRules :
      (ch : Chains) (to : Targets) → rules (length (rule_lines null_text ent ch to)) ≢ rules 0
  unfolding rule_lines
  lines-HasRules ch to = λ e. ground arith

  targets-HasRules :
      (ch : Chains) (to : Option Targets) (out : Written)
      → (put_targets null_text ent ch to out).1 ≢ rules 0
  targets-HasRules ch none out = cc
  targets-HasRules ch (some to) out = lines-HasRules ch to

  chains-HasRules :
      (ch : Option Chains) (out : Written) → (put_chains null_text ent ch out).1 ≢ rules 0
  chains-HasRules none out = cc
  chains-HasRules (some ch) out = targets-HasRules ch (targets_of ent.target ent.direction) out

  refused-HasRules :
      (b : Bool) (out : Written)
      → (if b
          then (out, failed)
          else put_chains null_text ent (chains_of ent.target ent.direction) out).1
        ≢ rules 0
  refused-HasRules true out = cc
  refused-HasRules false out = chains-HasRules (chains_of ent.target ent.direction) out

-- It writes a rule for each entry, or fails.
pub cb_ipchains-IsProductive :
    (null_text : Text) (flags : Flags) → IsProductive (cb_ipchains null_text flags)
unfolding cb_ipchains_rule
cb_ipchains-IsProductive null_text flags e s = refused-HasRules null_text e (refused e) s

-- The count that `filtergen_cprod` returns with the ipchains back end is the number of lines that it
-- has written, for every tree in which the walk meets no group, whatever was written before.
pub ipchains-Counted :
    (null_text : Text) (flags : Flags) (f : Filter) (out : Written)
    → GroupsGive ⊥ f
    → Counted length out (filtergen_cprod (cb_ipchains null_text flags) f out)
ipchains-Counted null_text flags f out g =
    cprod_over-Counted length (cb_ipchains null_text flags) (rule-Counted null_text) f out
      (GroupsGive-never _ f g)

-- The entry, as a rule that masquerades on output.
abbrev pub masqueraded : FilterEnt → FilterEnt
masqueraded ent = record ent { direction = output; target = masq; rtype = yyeof; oneway = true }

-- An entry that is masqueraded on output, one way and neither local nor routed: the rule for
-- forwarded packets jumps to whatever `printf` makes of a null pointer.
pub masquerade_jumps_to_null :
    (null_text : Text) (ent : FilterEnt) (out : Written)
    → cb_ipchains_rule null_text (masqueraded ent) out ≡ (
      out
          ++ rule_line ipchains
              (codes " -A ")
              (dashed ent.groupname)
              (codes "forw_out")
              (rule_text (masqueraded ent))
              []
              (codes "MASQ")
            ∷ rule_line ipchains
                (codes " -A ")
                (dashed ent.groupname)
                (codes "forw_out")
                (rule_text (masqueraded ent))
                []
                null_text
            ∷ [],
      rules 2,
    )
unfolding cb_ipchains_rule
masquerade_jumps_to_null null_text ent out = refl
