-- ===== src/Output/Iptables/Amounts.antt =====
-- How much `cb_iptables_rule_common` writes for one entry, kind by kind.
use filtergen.Base.{
  ℕ, ◌+◌, ◌≤◌, Bool, true, false, not, Option, none, some, List, [], ◌∷◌, ◌++◌, Text, length,
  if◌then◌else◌, ◌≡◌, refl, arith, length-append,
}
use filtergen.Filter.Types.{routedonly, localonly, f_log, Family, tag_eq}
use filtergen.Gen.Entry.{FilterEnt, Flags, Count, failed, aborted, rules}
use filtergen.Output.Lines.{optional}
use filtergen.Output.Iptables.Choice.{Made, Chains, Targets, chains_of, targets_of}
use filtergen.Output.Iptables.Bounds.{lengths, no_place}
use filtergen.Output.Iptables.{
  log_lines, rule_lines, need_nat, need_ret, nat_refused, put_targets, put_chains,
  iptables_rule_common,
}

abbrev bit : Bool → ℕ
bit b = if b then 1 else 0

-- The rules that log: one for each chain that the entry concerns, its own and the forwarding one.
abbrev pub log_rules : FilterEnt → ℕ
log_rules ent =
    if ent.whats_set f_log
    then bit (not (tag_eq ent.rtype routedonly)) + bit (not (tag_eq ent.rtype localonly))
    else 0

-- The rules: one for NAT if the target needs it, one for each chain that the entry concerns, and
-- those for returning packets, the one in the forwarding chain only where there is a rule there.
abbrev pub other_rules : Flags → FilterEnt → ℕ
other_rules flags ent =
    bit (need_nat ent.target)
    + bit (not (tag_eq ent.rtype routedonly))
    + bit (need_ret flags ent)
    + (if not (tag_eq ent.rtype localonly) then 1 + bit (need_ret flags ent) else 0)

-- Against the number of lines that there were before: a failure has written at most the rules that
-- log; otherwise the count that is returned, the lines that were written and the rules that the
-- entry asks for are the same number, between one and seven.
abbrev pub WritesAsMuch : Flags → FilterEnt → ℕ → Made × Count → Type 0
WritesAsMuch flags ent before (made, failed) = length made.written ≤ before + log_rules ent
WritesAsMuch flags ent before (made, aborted) = ⊥
WritesAsMuch flags ent before (made, rules n) =
    (length made.written ≡ before + n)
    × (n ≡ log_rules ent + other_rules flags ent)
    × (1 ≤ n)
    × (n ≤ 7)

log_amount :
    (log loc fwd : Bool) (a b : Text)
    → length (optional log (optional loc (a ∷ []) ++ optional fwd (b ∷ [])))
      ≡ (if log then bit loc + bit fwd else 0)
log_amount log loc fwd a b = ground arith

rule_amount :
    (nat loc ret fwd : Bool) (c d e f g : Text)
    → length (
        optional nat (c ∷ [])
        ++ (optional loc (d ∷ [])
            ++ (optional ret (e ∷ []) ++ optional fwd (f ∷ optional ret (g ∷ [])))))
      ≡ bit nat + bit loc + bit ret + (if fwd then 1 + bit ret else 0)
rule_amount nat loc ret fwd c d e f g = ground arith

module _ (prog : Text) (family : Family) (flags : Flags) (ent : FilterEnt) where
  length-log_lines : (ch : Chains) → length (log_lines prog ent ch) ≡ log_rules ent
  unfolding log_lines
  length-log_lines ch =
      log_amount (ent.whats_set f_log) (not (tag_eq ent.rtype routedonly))
        (not (tag_eq ent.rtype localonly)) _ _

  length-rule_lines :
      (ch : Chains) (to : Targets)
      → length (rule_lines prog flags ent ch to) ≡ other_rules flags ent
  unfolding rule_lines
  length-rule_lines ch to =
      rule_amount (need_nat ent.target) (not (tag_eq ent.rtype routedonly)) (need_ret flags ent)
        (not (tag_eq ent.rtype localonly)) _ _ _ _ _

  within :
      (ch : Chains) (to : Targets)
      → (1 ≤ length (log_lines prog ent ch ++ rule_lines prog flags ent ch to))
        × (length (log_lines prog ent ch ++ rule_lines prog flags ent ch to) ≤ 7)
  unfolding log_lines rule_lines
  within ch to =
      lengths (ent.whats_set f_log) (need_nat ent.target) (not (tag_eq ent.rtype routedonly))
        (need_ret flags ent) (not (tag_eq ent.rtype localonly)) _ _ _ _ _ _ _ (no_place ent.rtype)

  both_amounts :
      (w a b : List Text)
      → length a ≡ log_rules ent
      → length b ≡ other_rules flags ent
      → (1 ≤ length (a ++ b)) × (length (a ++ b) ≤ 7)
      → (length ((w ++ a) ++ b) ≡ length w + length (a ++ b))
        × (length (a ++ b) ≡ log_rules ent + other_rules flags ent)
        × (1 ≤ length (a ++ b))
        × (length (a ++ b) ≤ 7)
  both_amounts w a b la lb (low, high) = (
    omega (arith, length-append (w ++ a) b, length-append w a, length-append a b),
    omega (arith, length-append a b, la, lb),
    low,
    high,
  )

  targets_amount :
      (ch : Chains) (to : Option Targets) (before made : Made)
      → made.written ≡ before.written
      → WritesAsMuch flags ent (length before.written) (put_targets prog flags ent ch to made)
  targets_amount ch none before made e =
      rw e
        (omega (arith, length-append before.written (log_lines prog ent ch), length-log_lines ch))
  targets_amount ch (some to) before made e = rw e (
      both_amounts before.written (log_lines prog ent ch) (rule_lines prog flags ent ch to)
        (length-log_lines ch) (length-rule_lines ch to) (within ch to))

  chains_amount :
      (ch : Option Chains) (made : Made)
      → WritesAsMuch flags ent (length made.written) (put_chains prog flags ent ch made)
  chains_amount none made = omega arith
  chains_amount (some ch) made = targets_amount ch (targets_of ent.target ent.direction) made _ refl

  refused_amount :
      (b : Bool) (made : Made)
      → WritesAsMuch flags ent
          (length made.written)
          (if b then (made, failed) else put_chains prog flags ent (chains_of ent.direction) made)
  refused_amount true made = omega arith
  refused_amount false made = chains_amount (chains_of ent.direction) made

  -- What the iptables rule function writes for one entry. If it returns a count, the count is the
  -- number of lines written, and that number is: one if the target needs NAT; one for the chain of
  -- the direction unless the entry is routed only, and one for the forwarding chain unless it is
  -- local only, each twice if the entry logs; and, where returning packets need a rule, one and, if
  -- there is a rule in the forwarding chain, another one. This is between one and seven. If it
  -- fails, it has written at most the lines that log. It never ends the program.
  pub iptables_rule_few :
      (made : Made)
      → WritesAsMuch flags ent
          (length made.written)
          (iptables_rule_common prog family flags ent made)
  unfolding iptables_rule_common
  iptables_rule_few made = refused_amount (nat_refused family ent.target ent.direction) made
