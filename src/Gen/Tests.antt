-- ===== src/Gen/Tests.antt =====
-- Rules and entries written out, and the theorems on gen.c at them. The back end is that of
-- output/filtergen/emit.c, which writes one line for each entry.
use filtergen.Base.{Bool, false, ◌≡◌, refl, some, none, List, [], ◌∷◌, Text, codes, length}
use filtergen.Base.Int.{pos}
use filtergen.Base.Outcome.{ok}
use filtergen.Filter.Types.{
  input, t_accept, f_subgroup, af_inet, no_mask, PortSpec, localonly, routedonly,
}
use filtergen.Filter.Tree.{
  Filter, null, ptr, Leaf, Head, leaf, neg, siblings, direction, target, source, sport, dport,
  routingtype,
}
use filtergen.Filter.Trails.{trails, done, field, step}
use filtergen.Filter.Packets.{meant, selects}
use filtergen.Filter.Targets.{filter_unroll}
use filtergen.Gen.Entry.{FilterEnt, insert_tag, zero_ent, Flags, Callback, Count, aborted, crashes}
use filtergen.Gen.Check.{checkmatch}
use filtergen.Gen.Check.Complete.{IsComplete, checkmatch-IsComplete}
use filtergen.Gen.Apply.{filtergen_cprod, fg_applyone_leaf, open_subgroup}
use filtergen.Gen.Apply.Counts.{IsProductive}
use filtergen.Gen.Apply.Paths.{run_trail, run_trails}
use filtergen.Gen.Apply.Refine.{cprod-trails}
use filtergen.Gen.Apply.Safety.{Keeps, cprod_keeps}
use filtergen.Gen.Apply.Counting.{Counted}
use filtergen.Gen.Apply.Fields.{
  through, fill, stopped_at, second_field_stops, sport_range_excludes_dport,
}
use filtergen.Gen.Compile.{compile-trails}
use filtergen.Output.Strapp.{Written, length-oputs, HasText-app}
use filtergen.Output.Emit.Rules.{out_filtergen-IsProductive}
use filtergen.Output.Emit.{emit_text, out_filtergen_rule, out_filtergen_cb}

abbrev line : Head
line = record { negate = false; pos = 1 }

abbrev plain_flags : Flags
plain_flags = record {
  noskel = false;
  lstate = false;
  local = false;
  route = false;
  noresolve = false;
  flush = false;
}

abbrev back_end : Callback Written
back_end = out_filtergen_cb plain_flags

back_end-IsProductive : IsProductive back_end
back_end-IsProductive = out_filtergen-IsProductive plain_flags

abbrev from : Text → Leaf
from s = source (record { family = af_inet; mask = no_mask; addrstr = some s; maskstr = none })

-- input eth0 { source 10.0.0.1; ! source 192.0.2.7 } accept;
abbrev policy : Filter
policy =
    ptr
      (leaf (direction input (codes "eth0")) line (
        ptr
          (siblings
            (ptr (leaf (from (codes "10.0.0.1")) line null)
              (ptr (neg (ptr (leaf (from (codes "192.0.2.7")) line null) null) line null) null))
            line (ptr (leaf (target t_accept) line null) null))
          null))
      null

-- The same without the negation, unrolled.
abbrev unrolled : Filter
unrolled =
    ptr
      (leaf (direction input (codes "eth0")) line (
        ptr
          (siblings
            (ptr (leaf (from (codes "10.0.0.1")) line (ptr (leaf (target t_accept) line null) null))
              (ptr
                (leaf (from (codes "192.0.2.7")) line (ptr (leaf (target t_accept) line null) null))
                null))
            line null)
          null))
      null

compile-trails_example :
    (f' : Filter) × (filter_unroll policy ≡ ok f')
    × ((s : Written) → filtergen_cprod back_end f' s ≡ run_trails back_end (trails f') zero_ent s)
    × ((v : Leaf → Bool) → selects v (trails f') ≡ meant v policy)
compile-trails_example =
    compile-trails back_end policy back_end-IsProductive ((((tt, (tt, tt, tt)), (tt, tt), tt), tt))
      ((refl, ((refl, tt, tt), tt), tt)) ((((tt, ((tt, tt), tt, tt)), (tt, tt), tt), tt))

cprod-trails_example :
    filtergen_cprod back_end unrolled [] ≡ run_trails back_end (trails unrolled) zero_ent []
cprod-trails_example =
    cprod-trails back_end back_end-IsProductive unrolled [] (((((tt, tt), ((tt, tt), tt)), tt), tt))

-- Every call is recorded as an entry that was complete.
abbrev AllComplete : List FilterEnt → Type 0
AllComplete [] = Unit {0}
AllComplete (e ∷ es) = IsComplete e × AllComplete es

abbrev recorder : Callback (List FilterEnt)
recorder = record { rule = λ e s. (e ∷ s, Count.rules 1); group = none; flags = plain_flags }

recorder-Keeps : Keeps AllComplete recorder
recorder-Keeps = record { rule_keeps = λ e s c p. (c, p); group_keeps = λ g h name s p. cc }

cprod_keeps_example : AllComplete (filtergen_cprod recorder policy []).0
cprod_keeps_example = cprod_keeps AllComplete recorder recorder-Keeps policy [] tt

line-Counted : (e : FilterEnt) (s : Written) → Counted length s (out_filtergen_rule e s)
unfolding out_filtergen_rule emit_text
line-Counted e s = length-oputs (emit_text e) s (HasText-app _ (codes ";"))

abbrev whole : FilterEnt
whole = record zero_ent { direction = input; iface = some (codes "eth0"); target = t_accept }

checkmatch-IsComplete_example : IsComplete whole
unfolding checkmatch
checkmatch-IsComplete_example = checkmatch-IsComplete whole refl

abbrev port : Text → PortSpec
port s = record { min = pos 22; max = pos 22; minstr = some s; maxstr = none }

abbrev range : PortSpec
range = record {
  min = pos 1024;
  max = pos 2048;
  minstr = some (codes "1024");
  maxstr = some (codes "2048");
}

-- target accept, from 10.0.0.1, target accept again.
second_field_stops_example :
    run_trail back_end
      (through
        ((target t_accept, line) ∷ (from (codes "10.0.0.1"), line) ∷ [])
        (step (field (target t_accept) line) done))
      zero_ent
      []
    ≡ (
      [],
      stopped_at
          (target t_accept)
          (fill ((target t_accept, line) ∷ (from (codes "10.0.0.1"), line) ∷ []) zero_ent),
    )
second_field_stops_example =
    second_field_stops back_end (target t_accept) (target t_accept) line line
      ((from (codes "10.0.0.1"), line) ∷ []) done zero_ent [] tt

-- `local` and `forward` in one rule crash the program.
local_forward_crashes :
    run_trail back_end
      (through
        ((routingtype localonly, line) ∷ [])
        (step (field (routingtype routedonly) line) done))
      zero_ent
      []
    ≡ ([], aborted)
unfolding run_trail fg_applyone_leaf
local_forward_crashes = refl

sport_range_excludes_dport_example :
    run_trail back_end
      (through
        ((sport range, line) ∷ (from (codes "10.0.0.1"), line) ∷ [])
        (step (field (dport (port (codes "22"))) line) done))
      zero_ent
      []
    ≡ (
      [],
      stopped_at
          (dport (port (codes "22")))
          (fill ((sport range, line) ∷ (from (codes "10.0.0.1"), line) ∷ []) zero_ent),
    )
sport_range_excludes_dport_example =
    sport_range_excludes_dport back_end range (port (codes "22")) line line
      ((from (codes "10.0.0.1"), line) ∷ []) done zero_ent [] refl refl

-- Two groups in one rule crash the program, at the second one.
second_group_crashes :
    open_subgroup (codes "b") line (record zero_ent {
      whats_set = insert_tag f_subgroup (λ _. false);
      subgroup = some (codes "a");
    })
    ≡ crashes
unfolding open_subgroup
second_group_crashes = refl
