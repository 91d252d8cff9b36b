-- ===== src/Output/Iptables/Rules.antt =====
-- What `cb_iptables_rule_common` writes for one entry.
use filtergen.Base.{
  length-append, ℕ, ◌+◌, Bool, true, false, not, Option, none, some, List, ◌∷◌, ◌++◌, Text, codes,
  length, if◌then◌else◌, ◌≡◌, refl, ap, ◌∙◌, arith,
}
use filtergen.Filter.Types.{routedonly, localonly, f_log, Family, tag_eq}
use filtergen.Filter.Tree.{Filter}
use filtergen.Gen.Entry.{FilterEnt, Flags, failed}
use filtergen.Gen.Apply.{filtergen_cprod}
use filtergen.Gen.Apply.Counting.{Counted, GroupsGive, GroupsGive-never, cprod_over-Counted}
use filtergen.Output.Lines.{
  All, All-append, All-optional, beginning, begins, beginning-append, beginning-All,
}
use filtergen.Output.Iptables.Choice.{Made, Chains, Targets, chains_of, targets_of}
use filtergen.Output.Iptables.{
  log_lines, rule_lines, need_nat, need_ret, nat_refused, put_targets, put_chains,
  iptables_rule_common, cb_iptables,
}

-- A condition on lines that holds of every command with which a rule begins.
pub record Commands (P : Text → Type 0) (prog : Text) (ent : FilterEnt) : Type 0 where
  pub add : (s : Text) → P (prog ++ (codes " -A " ++ s))
  pub insert : (s : Text) → P (prog ++ (codes " -I " ++ s))
  pub nat : need_nat ent.target ≡ true → (s : Text) → P (prog ++ (codes " -t nat -A " ++ s))

module _ (P : Text → Type 0) (prog : Text) (flags : Flags) (ent : FilterEnt)
    (commands : Commands P prog ent) where
  pub All-log_lines : (ch : Chains) → All P (log_lines prog ent ch)
  unfolding log_lines
  All-log_lines ch = All-optional P (ent.whats_set f_log) _ λ _.
      All-append P _ _
        (All-optional P (not (tag_eq ent.rtype routedonly)) _ λ _. (commands.add _, tt))
        (All-optional P (not (tag_eq ent.rtype localonly)) _ λ _. (commands.add _, tt))

  pub All-rule_lines : (ch : Chains) (to : Targets) → All P (rule_lines prog flags ent ch to)
  unfolding rule_lines
  All-rule_lines ch to =
      All-append P _ _ (All-optional P (need_nat ent.target) _ λ n. (commands.nat n _, tt)) (
        All-append P _ _
          (All-optional P (not (tag_eq ent.rtype routedonly)) _ λ _. (commands.add _, tt))
          (All-append P _ _ (All-optional P (need_ret flags ent) _ λ _. (commands.insert _, tt)) (
            All-optional P (not (tag_eq ent.rtype localonly)) _ λ _. (
              commands.add _,
              All-optional P (need_ret flags ent) _ λ _. (commands.insert _, tt),
            ))))

-- The number of lines that begin with the path of a program.
abbrev pub commands_of : Made → ℕ
commands_of made = beginning b'/' made.written

counted_lines :
    (out a b : List Text)
    → All (λ l. begins b'/' l ≡ true) a
    → All (λ l. begins b'/' l ≡ true) b
    → beginning b'/' ((out ++ a) ++ b) ≡ beginning b'/' out + length (a ++ b)
counted_lines out a b ha hb = omega (
  arith,
  beginning-append b'/' (out ++ a) b,
  beginning-append b'/' out a,
  beginning-All b'/' a ha,
  beginning-All b'/' b hb,
  length-append a b,
)

module _ (name : Text) (family : Family) (flags : Flags) (ent : FilterEnt) where
  abbrev slash_commands : Commands (λ l. begins b'/' l ≡ true) (b'/' ∷ name) ent
  slash_commands = record { add = λ s. refl; insert = λ s. refl; nat = λ n s. refl }

  targets-Counted :
      (ch : Chains) (to : Option Targets) (s : Made) (t : Made)
      → t.written ≡ s.written
      → Counted commands_of s (put_targets (b'/' ∷ name) flags ent ch to t)
  targets-Counted ch none s t e = tt
  targets-Counted ch (some to) s t e =
      counted_lines t.written (log_lines (b'/' ∷ name) ent ch)
        (rule_lines (b'/' ∷ name) flags ent ch to)
        (All-log_lines _ (b'/' ∷ name) flags ent slash_commands ch)
        (All-rule_lines _ (b'/' ∷ name) flags ent slash_commands ch to)
      ∙ ap
          (λ w.
            beginning b'/' w
            + length (log_lines (b'/' ∷ name) ent ch ++ rule_lines (b'/' ∷ name) flags ent ch to))
          e

  chains-Counted :
      (ch : Option Chains) (s : Made)
      → Counted commands_of s (put_chains (b'/' ∷ name) flags ent ch s)
  chains-Counted none s = tt
  chains-Counted (some ch) s = targets-Counted ch (targets_of ent.target ent.direction) s _ refl

  refused-Counted :
      (b : Bool) (s : Made)
      → Counted commands_of s (
          if b then (s, failed) else put_chains (b'/' ∷ name) flags ent (chains_of ent.direction) s)
  refused-Counted true s = tt
  refused-Counted false s = chains-Counted (chains_of ent.direction) s

  rule-Counted :
      (s : Made) → Counted commands_of s (iptables_rule_common (b'/' ∷ name) family flags ent s)
  unfolding iptables_rule_common
  rule-Counted s = refused-Counted (nat_refused family ent.target ent.direction) s

-- The count that `filtergen_cprod` returns with the iptables back ends is the number of iptables
-- commands that they have written, NAT rules, returning rules and rules that log included, for
-- every tree in which the walk meets no group, whatever was written before.
pub iptables-Counted :
    (name : Text) (family : Family) (flags : Flags) (f : Filter) (made : Made)
    → GroupsGive ⊥ f
    → Counted commands_of made (filtergen_cprod (cb_iptables (b'/' ∷ name) family flags) f made)
iptables-Counted name family flags f made g =
    cprod_over-Counted commands_of (cb_iptables (b'/' ∷ name) family flags)
      (rule-Counted name family flags) f made (GroupsGive-never _ f g)
