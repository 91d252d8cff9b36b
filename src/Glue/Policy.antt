-- ===== src/Glue/Policy.antt =====
-- From the syntax tree of a policy to the calls of a back end without groups.
use filtergen.Base.{ℕ, some, Bool, true, ◌≡◌, refl, ◌∙◌}
use filtergen.Base.Outcome.{ok}
use filtergen.Filter.Types.{Family}
use filtergen.Filter.Tree.{Filter, null, ptr, Node, Leaf, leaf, neg, siblings, subgroup}
use filtergen.Filter.Build.{Libc}
use filtergen.Filter.Trails.{trails}
use filtergen.Filter.Packets.{meant, selects}
use filtergen.Filter.Negation.Operand.{IsOperand, IsNegatable}
use filtergen.Filter.Groups.{filter_nogroup}
use filtergen.Filter.Groups.Meaning.{nogroup_keeps_meaning}
use filtergen.Filter.Plain.{IsPlain, siblings-IsPlain}
use filtergen.Filter.Targets.{not_null}
use filtergen.Filter.Targets.Steady.{IsSteady}
use filtergen.Gen.Entry.{zero_ent, Flags, Callback}
use filtergen.Gen.Apply.Counts.{IsProductive}
use filtergen.Gen.Apply.Paths.{run_trails}
use filtergen.Filter.Targets.{filter_unroll}
use filtergen.Gen.Apply.{filtergen_cprod}
use filtergen.Gen.Compile.{compile-trails}
use filtergen.Output.Strapp.{Written, oputs}
use filtergen.Output.Ipfilter.{cb_ipfilter, fg_ipfilter}
use filtergen.Output.Ipfilter.Rules.{cb_ipfilter-IsProductive}
use filtergen.Output.Cisco.{cb_cisco, fg_cisco, cisco_warning}
use filtergen.Output.Cisco.Rules.{cb_cisco-IsProductive}
use filtergen.Output.Emit.{out_filtergen_cb, emit_filtergen}
use filtergen.Output.Emit.Rules.{out_filtergen-IsProductive}
use filtergen.Glue.Ast.{Ast}
use filtergen.Glue.Convert.{convert}
use filtergen.Glue.Full.{IsFull}
use filtergen.Glue.Built.{convert-IsFull}

-- What stands below a negation and may be expanded has no subgroup and no empty list.
operand-IsPlain : (nd : Node) → IsOperand nd → IsPlain (ptr nd null)
operand-IsPlain (leaf l h null) o = (tt, tt)
operand-IsPlain (siblings (ptr nd null) h null) o = (operand-IsPlain nd o, tt, tt)
operand-IsPlain _ o = absurd o

nogroup-not_null : (nd : Node) (m : Filter) → not_null (filter_nogroup (ptr nd m)) ≡ true
unfolding filter_nogroup
nogroup-not_null (leaf l h c) m = refl
nogroup-not_null (neg s h c) m = refl
nogroup-not_null (siblings s h c) m = refl
nogroup-not_null (subgroup name s h c) m = refl

-- After `filter_nogroup` a tree with nothing empty in it has no subgroups, if what is negated in it
-- may be.
pub nogroup-IsPlain :
    (f : Filter) → IsFull f → IsNegatable (filter_nogroup f) → IsPlain (filter_nogroup f)
unfolding filter_nogroup
nogroup-IsPlain null h o = tt
nogroup-IsPlain (ptr (leaf l k c) n) (hc, hn) (oc, on) =
    (nogroup-IsPlain c hc oc, nogroup-IsPlain n hn on)
nogroup-IsPlain (ptr (neg null k c) n) h o = absurd h
nogroup-IsPlain (ptr (neg (ptr nd null) k c) n) (hs, hc, hn) (os, oc, on) =
    (operand-IsPlain nd os, nogroup-IsPlain c hc oc, nogroup-IsPlain n hn on)
nogroup-IsPlain (ptr (neg (ptr nd (ptr _ _)) k c) n) h o = absurd o
nogroup-IsPlain (ptr (siblings null k c) n) h o = absurd h
nogroup-IsPlain (ptr (siblings (ptr nd m) k c) n) (hs, hc, hn) (os, oc, on) =
    siblings-IsPlain (filter_nogroup (ptr nd m)) (filter_nogroup c) (filter_nogroup n) k
      (nogroup-not_null nd m) (nogroup-IsPlain (ptr nd m) hs os) (nogroup-IsPlain c hc oc)
      (nogroup-IsPlain n hn on)
nogroup-IsPlain (ptr (subgroup name null k c) n) h o = absurd h
nogroup-IsPlain (ptr (subgroup name (ptr nd m) k c) n) (hs, hc, hn) (os, oc, on) =
    siblings-IsPlain (filter_nogroup (ptr nd m)) (filter_nogroup c) (filter_nogroup n) k
      (nogroup-not_null nd m) (nogroup-IsPlain (ptr nd m) hs os) (nogroup-IsPlain c hc oc)
      (nogroup-IsPlain n hn on)

abbrev pub parsed : Libc → Family → Ast → ℕ → Filter
parsed libc family ast count = (convert libc family ast count).0

module _ (libc : Libc) (family : Family) (ast : Ast) (count : ℕ)
    (negatable : IsNegatable (filter_nogroup (parsed libc family ast count)))
    (steady : IsSteady (filter_nogroup (parsed libc family ast count))) where
  abbrev policy : Filter
  policy = parsed libc family ast count

  -- What a back end without groups is left with, and what it selects.
  compiled :
      {S : Type 0} (cb : Callback S)
      → IsProductive cb
      → (f' : Filter) × (filter_unroll (filter_nogroup policy) ≡ ok f')
        × ((s : S) → filtergen_cprod cb f' s ≡ run_trails cb (trails f') zero_ent s)
        × ((v : Leaf → Bool) → selects v (trails f') ≡ meant v policy)
  compiled cb productive =
      let plain = nogroup-IsPlain policy (convert-IsFull libc family ast count) negatable in
      let (f', e, runs, means) =
        compile-trails cb (filter_nogroup policy) productive negatable steady plain in
      (f', e, runs, λ v. means v ∙ nogroup_keeps_meaning v policy)

  -- For every policy whose negations stand over single conditions and whose targets stand last: the
  -- passes of `fg_ipfilter` before the walk, on what `convert` made of the syntax tree, end without
  -- a fault, and what it does from there is exactly this. It runs, in order and each from an empty
  -- entry, the paths of a tree. The run stops early where the walk does: with -1 at a path that
  -- fails, and with the end of the program at a path that gives a routing type a second time, whose
  -- message crashes. These paths select exactly the packets that the converted tree means, groups
  -- included.
  pub fg_ipfilter-trails :
      (flags : Flags) (out : Written)
      → (f' : Filter) × (fg_ipfilter policy flags out
          ≡ ok (run_trails (cb_ipfilter flags) (trails f') zero_ent out))
        × ((v : Leaf → Bool) → selects v (trails f') ≡ meant v policy)
  unfolding fg_ipfilter
  fg_ipfilter-trails flags out =
      let (f', e, runs, means) = compiled (cb_ipfilter flags) (cb_ipfilter-IsProductive flags) in
      (f', rw (e, runs out) refl, means)

  -- For every policy whose negations stand over single conditions and whose targets stand last: the
  -- passes of `fg_cisco` before the walk, on what `convert` made of the syntax tree, end without a
  -- fault, and what it does from there is exactly this. It writes its warning and runs, in order
  -- and each from an empty entry, the paths of a tree. The run stops early where the walk does:
  -- with -1 at a path that fails, and with the end of the program at a path that gives a routing
  -- type a second time, whose message crashes, or whose rule has ports to print with a negated
  -- range among them, at which the back end calls `abort()`. These paths select exactly the packets
  -- that the converted tree means, groups included.
  pub fg_cisco-trails :
      (flags : Flags) (out : Written)
      → (f' : Filter) × (fg_cisco policy flags out
          ≡ ok (run_trails (cb_cisco flags) (trails f') zero_ent (oputs (some cisco_warning) out)))
        × ((v : Leaf → Bool) → selects v (trails f') ≡ meant v policy)
  unfolding fg_cisco
  fg_cisco-trails flags out =
      let (f', e, runs, means) = compiled (cb_cisco flags) (cb_cisco-IsProductive flags) in
      (f', rw (e, runs (oputs (some cisco_warning) out)) refl, means)

  -- For every policy whose negations stand over single conditions and whose targets stand last: the
  -- passes of `emit_filtergen` before the walk, on what `convert` made of the syntax tree, end
  -- without a fault, and what it does from there is exactly this. It runs, in order and each from
  -- an empty entry, the paths of a tree. The run stops early where the walk does: with -1 at a path
  -- that fails, and with the end of the program at a path that gives a routing type a second time,
  -- whose message crashes. These paths select exactly the packets that the converted tree means,
  -- groups included.
  pub emit_filtergen-trails :
      (flags : Flags) (out : Written)
      → (f' : Filter) × (emit_filtergen policy flags out
          ≡ ok (run_trails (out_filtergen_cb flags) (trails f') zero_ent out))
        × ((v : Leaf → Bool) → selects v (trails f') ≡ meant v policy)
  unfolding emit_filtergen
  emit_filtergen-trails flags out =
      let (f', e, runs, means) =
        compiled (out_filtergen_cb flags) (out_filtergen-IsProductive flags) in
      (f', rw (e, runs out) refl, means)
