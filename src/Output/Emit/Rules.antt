-- ===== src/Output/Emit/Rules.antt =====
-- What the filtergen back end writes for one entry.
use filtergen.Base.{arith, Bool, Option, Text, codes, length, ◌≡◌, refl}
use filtergen.Filter.Types.{FilterType}
use filtergen.Filter.Tree.{Filter}
use filtergen.Gen.Entry.{FilterEnt, Flags, TagSet}
use filtergen.Gen.Apply.{filtergen_cprod}
use filtergen.Gen.Apply.Counts.{IsProductive}
use filtergen.Gen.Apply.Counting.{Counted, cprod-Counted}
use filtergen.Output.Strapp.{Written, HasText-app, length-oputs}
use filtergen.Output.Emit.{emit_text, out_filtergen_rule, out_filtergen_cb}

-- The count that `filtergen_cprod` returns with the filtergen back end is the number of lines that
-- it has written, for every tree and whatever was written before.
pub emit-Counted :
    (flags : Flags) (f : Filter) (out : Written)
    → Counted length out (filtergen_cprod (out_filtergen_cb flags) f out)
unfolding out_filtergen_rule
emit-Counted flags f out =
    cprod-Counted length (out_filtergen_cb flags)
      (λ e s. length-oputs (emit_text e) s (unfold emit_text in HasText-app _ (codes ";"))) refl f
      out

-- The filtergen back end writes the same line whatever the entry's negations, routing type and
-- `oneway` are, and whatever text its log messages carry.
pub emit_ignores :
    (ent : FilterEnt) (negated : TagSet) (r : FilterType) (o : Bool) (m : Option Text)
    (out : Written)
    → out_filtergen_rule
        (record ent { whats_negated = negated; rtype = r; oneway = o; logmsg = m })
        out
      ≡ out_filtergen_rule ent out
unfolding out_filtergen_rule
emit_ignores ent negated r o m out = refl

-- It writes a rule for each entry.
pub out_filtergen-IsProductive : (flags : Flags) → IsProductive (out_filtergen_cb flags)
unfolding out_filtergen_rule
out_filtergen-IsProductive flags e s = λ eq. ground arith
