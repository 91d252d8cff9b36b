-- ===== src/Output/Iptables/Nat.antt =====
-- NAT rules and IPv6, in output/iptables/fg-iptables.c.
use filtergen.Base.{
  Bool, true, false, not, ◌&&◌, ◌||◌, Option, none, some, [], ◌∷◌, ◌++◌, Text, codes, ◌==◌, ◌≡◌,
  refl, if◌then◌else◌, arith, sym, Bool-cases, inl, inr,
}
use mathlib.Core.Path.{subst}
use mathlib.Core.List.{append_assoc}
use filtergen.Base.Outcome.{Outcome, ok, fault, ◌>>=◌}
use filtergen.Filter.Types.{FilterType, af_inet6}
use filtergen.Filter.Tree.{Filter}
use filtergen.Filter.Targets.{filter_unroll}
use filtergen.Gen.Entry.{FilterEnt, Flags, Count, failed, aborted, rules}
use filtergen.Gen.Apply.{filtergen_cprod}
use filtergen.Gen.Apply.Safety.{Keeps, cprod_keeps}
use filtergen.Output.Strapp.{Written}
use filtergen.Output.Lines.{All, All-append, All-optional}
use filtergen.Output.Iptables.Choice.{Made, Chains, Targets, chains_of, targets_of}
use filtergen.Output.Iptables.Rules.{Commands, All-log_lines, All-rule_lines}
use filtergen.Output.Iptables.{
  need_nat, put_targets, put_chains, iptables_rule_common, nat_misused, iptables_group, cb_iptables,
  ip6tables,
}
use filtergen.Output.Iptables.Skeleton.{
  skeleton, established, needs_established, finish, started, fg_iptables_common, fg_ip6tables,
  policy_word, nat_flush, flush_iptables_common, flush_ip6tables,
}

abbrev pub starts : Text → Text → Bool
starts [] t = true
starts (a ∷ s) [] = false
starts (a ∷ s) (b ∷ t) = a == b && starts s t

-- The text stands somewhere in the line.
abbrev pub contains : Text → Text → Bool
contains t [] = starts t []
contains t (a ∷ s) = starts t (a ∷ s) || contains t s

-- The lines that hold words of the policy: a rule of the table that is taken without `-t`, or the
-- making of a group's chains.
abbrev pub is_policy_line : Text → Bool
is_policy_line l =
    starts (codes "/sbin/ip6tables -A ") l
    || (starts (codes "/sbin/ip6tables -I ") l
        || starts (codes "for f in INPUT OUTPUT FORWARD FORW_OUT; do /sbin/ip6tables -N ") l)

-- Such a line, or a line in which `-t` stands nowhere.
abbrev pub IsNatFree : Text → Type 0
IsNatFree l = is_policy_line l || not (contains (codes " -t") l) ≡ true

module _ (flags : Flags) (ent : FilterEnt) (plain : need_nat ent.target ≡ false) where
  plain_commands : Commands IsNatFree ip6tables ent
  plain_commands = record { add = λ s. refl; insert = λ s. refl; nat = λ n s. ground arith }

  targets-IsNatFree :
      (ch : Chains) (to : Option Targets) (made : Made)
      → All IsNatFree made.written
      → All IsNatFree (put_targets ip6tables flags ent ch to made).0.written
  targets-IsNatFree ch none made h =
      All-append IsNatFree _ _ h (All-log_lines IsNatFree ip6tables flags ent plain_commands ch)
  targets-IsNatFree ch (some to) made h =
      All-append IsNatFree _ _
        (All-append IsNatFree _ _ h (All-log_lines IsNatFree ip6tables flags ent plain_commands ch))
        (All-rule_lines IsNatFree ip6tables flags ent plain_commands ch to)

  chains-IsNatFree :
      (ch : Option Chains) (made : Made)
      → All IsNatFree made.written
      → All IsNatFree (put_chains ip6tables flags ent ch made).0.written
  chains-IsNatFree none made h = h
  chains-IsNatFree (some ch) made h = targets-IsNatFree ch (targets_of ent.target ent.direction) _ h

refused-IsNatFree :
    (flags : Flags) (ent : FilterEnt) (n b : Bool) (made : Made)
    → need_nat ent.target ≡ n
    → All IsNatFree made.written
    → All IsNatFree
        (if n && (true || b)
          then (made, failed)
          else put_chains ip6tables flags ent (chains_of ent.direction) made).0.written
refused-IsNatFree flags ent true b made e h = h
refused-IsNatFree flags ent false b made e h =
    chains-IsNatFree flags ent e (chains_of ent.direction) made h

rule-IsNatFree :
    (flags : Flags) (ent : FilterEnt) (made : Made)
    → All IsNatFree made.written
    → All IsNatFree (iptables_rule_common ip6tables af_inet6 flags ent made).0.written
unfolding iptables_rule_common
rule-IsNatFree flags ent made h =
    refused-IsNatFree flags ent (need_nat ent.target) (nat_misused ent.target ent.direction) made
      refl h

group-IsNatFree :
    (name : Text) (made : Made)
    → All IsNatFree made.written
    → All IsNatFree (iptables_group ip6tables name made).written
group-IsNatFree name made h = All-append IsNatFree _ _ h (refl, tt)

Keeps-IsNatFree :
    (flags : Flags) → Keeps (λ m. All IsNatFree m.written) (cb_iptables ip6tables af_inet6 flags)
Keeps-IsNatFree flags = record {
  rule_keeps = λ e s c p. rule-IsNatFree flags e s p;
  group_keeps = λ g eq name s p.
      subst (λ (k : Text → Made → Made). All IsNatFree (k name s).written)
        {x = iptables_group ip6tables} {y = g} (cc) (group-IsNatFree name s p);
}

skeleton-IsNatFree : All IsNatFree (skeleton ip6tables af_inet6)
unfolding skeleton
skeleton-IsNatFree = (
  refl,
  (
    refl,
    (
      refl,
      (
        refl,
        (
          refl,
          (
            refl,
            (refl, (refl, (refl, (refl, (refl, (refl, (refl, (refl, (refl, (refl, tt)))))))))),
          ),
        ),
      ),
    ),
  ),
)

established-IsNatFree : (made : Made) → All IsNatFree (established ip6tables made.feat)
unfolding established
established-IsNatFree made = (
  refl,
  All-append IsNatFree _ _
      (All-append IsNatFree _ _ (All-optional IsNatFree made.feat.tcp _ λ _. (refl, tt))
        (All-optional IsNatFree made.feat.udp _ λ _. (refl, tt)))
      (refl, tt),
)

finish-IsNatFree :
    (flags : Flags) (x : Made × Count)
    → All IsNatFree x.0.written
    → All IsNatFree (finish ip6tables flags x).0
finish-IsNatFree flags (made, failed) h = h
finish-IsNatFree flags (made, aborted) h = h
finish-IsNatFree flags (made, rules n) h = elim (Bool-cases (needs_established flags made.feat)) [
  | inl more ↦ rw more (All-append IsNatFree _ _ h (established-IsNatFree made))
  | inr less ↦ rw less h
]

ok-bind :
    {A B : Type 0} (m : Outcome A) (k : A → Outcome B) (b : B)
    → m >>= k ≡ ok b
    → (a : A) × (k a ≡ ok b)
ok-bind (ok a) k b h = (a, h)
ok-bind (fault e) k b h = cc

start-IsNatFree :
    (flags : Flags) (out : Written)
    → All IsNatFree out
    → All IsNatFree (started ip6tables af_inet6 flags out).written
start-IsNatFree flags out h =
    All-append IsNatFree _ _ h (All-optional IsNatFree (not flags.noskel) _ λ _. skeleton-IsNatFree)

-- For every tree and all flags, whatever count `fg_ip6tables` returns, if it holds of the lines that
-- were written before: each line begins with the command that adds or inserts a rule in the table
-- that is taken without `-t`, or begins as the making of a group's chains, or has no ` -t` anywhere
-- in it. So no command on a NAT table is written, neither for an entry that is masqueraded or
-- redirected, nor anywhere in the lines around the rules; of the lines of the first two kinds only
-- the beginning is stated, since they end with words of the policy.
pub fg_ip6tables-IsNatFree :
    (f : Filter) (flags : Flags) (out w : Written) (c : Count)
    → All IsNatFree out
    → fg_ip6tables f flags out ≡ ok (w, c)
    → All IsNatFree w
unfolding fg_iptables_common
fg_ip6tables-IsNatFree f flags out w c h e =
    let (unrolled, done) = ok-bind (filter_unroll f) _ (w, c) e in
    let run =
      filtergen_cprod (cb_iptables ip6tables af_inet6 flags) unrolled
        (started ip6tables af_inet6 flags out) in
    let kept =
      cprod_keeps (λ (m : Made). All IsNatFree m.written) (cb_iptables ip6tables af_inet6 flags)
        (Keeps-IsNatFree flags) unrolled (started ip6tables af_inet6 flags out)
        (start-IsNatFree flags out h) in
    subst (λ (x : Written × Count). All IsNatFree x.0) {x = finish ip6tables flags run} {y = (w, c)}
      (cc) (finish-IsNatFree flags run kept)

-- The flush of ip6tables is the flush for IPv6 and one command more, on the NAT table, for each
-- policy that is taken.
pub flush_ip6tables_adds_nat :
    (policy : FilterType) (word : Text) (out : Written)
    → policy_word policy ≡ some word
    → (flush_ip6tables policy out).0
      ≡ (flush_iptables_common ip6tables af_inet6 policy out).0 ++ nat_flush ip6tables ∷ []
unfolding flush_iptables_common
flush_ip6tables_adds_nat policy word out h = rw h (sym (append_assoc out _ _))
