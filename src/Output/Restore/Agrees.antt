-- ===== src/Output/Restore/Agrees.antt =====
-- The two back ends for iptables against each other.
use mathlib.Core.List.{map}
use filtergen.Base.{
  suc, Bool, true, false, not, ◌&&◌, ◌||◌, Option, none, some, List, [], ◌∷◌, ◌++◌, Text, codes,
  concat, length, ◌≡◌, refl, ap, ap₂, sym, ◌∙◌, arith, Bool-cases, inl, inr,
}
use filtergen.Filter.Types.{
  FilterType, input, t_accept, drop, t_reject, masq, redirect, f_subgroup, f_log, routedonly,
  localonly, Family, tag_eq,
}
use filtergen.Gen.Entry.{FilterEnt, Flags, Count, rules}
use filtergen.Output.Lines.{optional}
use filtergen.Output.Iptables as Iptables
use filtergen.Output.Iptables.{iptables_rule_common}
use filtergen.Output.Iptables.Match.{behind_space, new_state}
use filtergen.Output.Iptables.Choice.{Made, Features, Chains, Targets}
use filtergen.Output.Iptables.Choice as Choice
use filtergen.Output.Restore.{
  forward_text, return_text, rule_line, log_lines, nat_lines, filter_lines, targets_of, put_targets,
  put_chains, iptrestore_rule_common,
}

-- A rule of iptables-restore as a command.
abbrev pub as_command : Text → Text → Text
as_command prog line = prog ++ (codes " " ++ line)

-- The same lines, one as commands, the same features and the same count.
abbrev pub SameRules : Text → Made × Count → Made × Count → Type 0
SameRules prog x y =
    (x.0.written ≡ map (as_command prog) y.0.written) × (x.0.feat ≡ y.0.feat) × (x.1 ≡ y.1)

map-append : (g : Text → Text) (a b : List Text) → map g (a ++ b) ≡ map g a ++ map g b
map-append g [] b = refl
map-append g (x ∷ a) b = ap (λ l. g x ∷ l) (map-append g a b)

length-map : (g : Text → Text) (a : List Text) → length (map g a) ≡ length a
length-map g [] = refl
length-map g (x ∷ a) = ap suc (length-map g a)

map-rules :
    (g : Text → Text) (nat loc ret fwd : Bool) (n d e f k : Text)
    → nat ≡ false
    → optional nat (n ∷ [])
        ++ (optional loc (g d ∷ [])
            ++ (optional ret (g e ∷ []) ++ optional fwd (g f ∷ optional ret (g k ∷ []))))
      ≡ map g (
          optional loc (d ∷ [])
          ++ (optional ret (e ∷ []) ++ optional fwd (f ∷ optional ret (k ∷ []))))
map-rules g true loc ret fwd n d e f k h = cc
map-rules g false true true true n d e f k h = refl
map-rules g false true true false n d e f k h = refl
map-rules g false true false true n d e f k h = refl
map-rules g false true false false n d e f k h = refl
map-rules g false false true true n d e f k h = refl
map-rules g false false true false n d e f k h = refl
map-rules g false false false true n d e f k h = refl
map-rules g false false false false n d e f k h = refl

map-logs :
    (g : Text → Text) (log loc fwd : Bool) (a b : Text)
    → optional log (optional loc (g a ∷ []) ++ optional fwd (g b ∷ []))
      ≡ map g (optional log (optional loc (a ∷ []) ++ optional fwd (b ∷ [])))
map-logs g true true true a b = refl
map-logs g true true false a b = refl
map-logs g true false true a b = refl
map-logs g true false false a b = refl
map-logs g false loc fwd a b = refl

module _ (prog : Text) (family : Family) (flags : Flags) (ent : FilterEnt)
    (plain : Iptables.need_nat ent.target ≡ false) (silent : ent.logmsg ≡ none) where
  rules_agree :
      (ch : Chains) (to : Targets)
      → Iptables.rule_lines prog flags ent ch to
        ≡ map (as_command prog) (filter_lines flags ent ch to)
  unfolding Iptables.rule_lines filter_lines
  rules_agree ch to =
      let text = behind_space (forward_text ent ch.iface_word new_state) in
      let back = behind_space (return_text ent ch.back_word) in
      let sub = Iptables.dashed ent.groupname in
      let add = λ (chain target : Text).
        rule_line (codes "-A ") sub chain text (Iptables.sub_target ent) target in
      let insert = λ (chain target : Text).
        rule_line (codes "-I ") sub chain back (Iptables.sub_target ent) target in
      map-rules (as_command prog) (Iptables.need_nat ent.target) (not (tag_eq ent.rtype routedonly))
        (Iptables.need_ret flags ent) (not (tag_eq ent.rtype localonly)) _ (add ch.rule to.rule)
        (insert ch.rev (Iptables.given_text to.rev)) (add ch.fwd to.fwd)
        (insert ch.fwd_rev (Iptables.given_text to.fwd_rev)) plain

  logs_agree :
      (ch : Chains) → Iptables.log_lines prog ent ch ≡ map (as_command prog) (log_lines ent ch)
  unfolding Iptables.log_lines log_lines
  logs_agree ch =
      let text = behind_space (forward_text ent ch.iface_word new_state) in
      let line =
        λ (chain : Text). concat (codes "-A " ∷ chain ∷ codes " " ∷ text ∷ codes " LOG" ∷ []) in
      rw silent (
        map-logs (as_command prog) (ent.whats_set f_log) (not (tag_eq ent.rtype routedonly))
          (not (tag_eq ent.rtype localonly)) (line ch.rule) (line ch.fwd))

  no_nat_lines : (ch : Chains) → nat_lines ent ch ≡ []
  unfolding nat_lines
  no_nat_lines ch = rw plain refl

  -- Apart from DROP and REJECT on input, the two switches on the target agree.
  module _
      (passing : tag_eq ent.direction input
          && (tag_eq ent.target drop || tag_eq ent.target t_reject)
        ≡ false) where
    targets_agree :
        (t dir : FilterType)
        → tag_eq dir input && (tag_eq t drop || tag_eq t t_reject) ≡ false
        → Choice.targets_of t dir ≡ targets_of t dir
    unfolding Choice.targets_of targets_of
    targets_agree t_accept dir h = refl
    targets_agree drop dir h = ground arith
    targets_agree t_reject dir h = ground arith
    targets_agree masq dir h = refl
    targets_agree redirect dir h = refl
    targets_agree f_subgroup dir h = refl
    targets_agree _ dir h = refl

    same_targets :
        (ch : Chains) (to : Option Targets) (ft : Features)
        → SameRules prog
            (Iptables.put_targets prog flags ent ch to (record { written = []; feat = ft }))
            (put_targets flags ent ch to (record { written = []; feat = ft }))
    same_targets ch none ft = (logs_agree ch, refl, refl)
    same_targets ch (some to) ft =
        let both =
          ap₂ ◌++◌ (logs_agree ch) (rules_agree ch to)
          ∙ sym (map-append (as_command prog) (log_lines ent ch) (filter_lines flags ent ch to)) in
        (
          both ∙ rw (no_nat_lines ch) refl,
          refl,
          rw plain (
              ap rules (
                ap length both
                ∙ length-map (as_command prog) (log_lines ent ch ++ filter_lines flags ent ch to))),
        )

    same_chains :
        (ch : Option Chains) (ft : Features)
        → SameRules prog
            (Iptables.put_chains prog flags ent ch (record { written = []; feat = ft }))
            (put_chains flags ent ch (record { written = []; feat = ft }))
    same_chains none ft = (refl, refl, refl)
    same_chains (some ch) ft =
        rw (targets_agree ent.target ent.direction passing)
          (same_targets ch (targets_of ent.target ent.direction) _)

    -- The back ends for iptables and for iptables-restore agree on every entry without a log
    -- message that is not translated and not dropped or rejected on input. The commands of
    -- iptables are the lines of iptables-restore with the program's path in front, both note the
    -- same protocols, and both return the same.
    pub restore_agrees :
        (ft : Features)
        → SameRules prog
            (iptables_rule_common prog family flags ent (record { written = []; feat = ft }))
            (iptrestore_rule_common family flags ent (record { written = []; feat = ft }))
    unfolding iptables_rule_common iptrestore_rule_common
    restore_agrees ft = elim (Bool-cases (Iptables.nat_refused family ent.target ent.direction)) [
      | inl refused ↦ rw refused (refl, refl, refl)
      | inr taken ↦ rw taken (same_chains (Choice.chains_of ent.direction) ft)
    ]
