-- ===== src/Output/Iptables/Bounds.antt =====
-- How many rules `cb_iptables_rule_common` writes for one entry.
use filtergen.Base.{
  ◌≤◌, Bool, true, false, not, ◌&&◌, Option, none, some, [], ◌∷◌, ◌++◌, Text, length, if◌then◌else◌,
  ◌≡◌, ◌≢◌, arith,
}
use filtergen.Filter.Types.{FilterType, routedonly, localonly, f_log, Family, tag_eq}
use filtergen.Gen.Entry.{FilterEnt, Flags, Count, failed, aborted, rules}
use filtergen.Gen.Apply.Counts.{IsProductive}
use filtergen.Output.Lines.{optional}
use filtergen.Output.Iptables.Choice.{Made, Chains, Targets, chains_of, targets_of}
use filtergen.Output.Iptables.{
  log_lines, rule_lines, need_nat, need_ret, nat_refused, put_targets, put_chains,
  iptables_rule_common, cb_iptables,
}

-- At least one rule and at most seven, if the entry is not both local and routed.
pub lengths :
    (log nat loc ret fwd : Bool) (a b c d e f g : Text)
    → not loc && not fwd ≡ false
    → (1
        ≤ length (
            optional log (optional loc (a ∷ []) ++ optional fwd (b ∷ []))
            ++ (optional nat (c ∷ [])
                ++ (optional loc (d ∷ [])
                    ++ (optional ret (e ∷ []) ++ optional fwd (f ∷ optional ret (g ∷ [])))))))
      × (length (
            optional log (optional loc (a ∷ []) ++ optional fwd (b ∷ []))
            ++ (optional nat (c ∷ [])
                ++ (optional loc (d ∷ [])
                    ++ (optional ret (e ∷ []) ++ optional fwd (f ∷ optional ret (g ∷ []))))))
          ≤ 7)
lengths log nat loc ret fwd a b c d e f g h = ground arith

pub no_place :
    (r : FilterType) → not (not (tag_eq r routedonly)) && not (not (tag_eq r localonly)) ≡ false
no_place r = ground arith

-- A failure, or one to seven rules.
abbrev pub IsFewRules : Count → Type 0
IsFewRules failed = Unit {0}
IsFewRules aborted = ⊥
IsFewRules (rules n) = (1 ≤ n) × (n ≤ 7)

module _ (prog : Text) (family : Family) (flags : Flags) (ent : FilterEnt) where
  targets_few :
      (ch : Chains) (to : Option Targets) (made : Made)
      → IsFewRules (put_targets prog flags ent ch to made).1
  unfolding log_lines rule_lines
  targets_few ch none made = tt
  targets_few ch (some to) made =
      lengths (ent.whats_set f_log) (need_nat ent.target) (not (tag_eq ent.rtype routedonly))
        (need_ret flags ent) (not (tag_eq ent.rtype localonly)) _ _ _ _ _ _ _ (no_place ent.rtype)

  chains_few : (ch : Option Chains) (made : Made) → IsFewRules (put_chains prog flags ent ch made).1
  chains_few none made = tt
  chains_few (some ch) made = targets_few ch (targets_of ent.target ent.direction) _

  refused_few :
      (b : Bool) (made : Made)
      → IsFewRules
          (if b then (made, failed) else put_chains prog flags ent (chains_of ent.direction) made).1
  refused_few true made = tt
  refused_few false made = chains_few (chains_of ent.direction) made

  pub iptables_rule-IsFewRules :
      (made : Made) → IsFewRules (iptables_rule_common prog family flags ent made).1
  unfolding iptables_rule_common
  iptables_rule-IsFewRules made = refused_few (nat_refused family ent.target ent.direction) made

pub few_not_zero : (c : Count) → IsFewRules c → c ≢ rules 0
few_not_zero failed h = cc
few_not_zero aborted h = absurd h
few_not_zero (rules n) h = λ e. ground arith

pub cb_iptables-IsProductive :
    (prog : Text) (family : Family) (flags : Flags) → IsProductive (cb_iptables prog family flags)
cb_iptables-IsProductive prog family flags e s =
    few_not_zero _ (iptables_rule-IsFewRules prog family flags e s)
