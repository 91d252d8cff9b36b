-- ===== src/Output/Ipfilter/Rules.antt =====
-- What the ipfilter back end writes for one entry.
use filtergen.Base.{
  arith, ◌≢◌, Bool, ◌&&◌, Option, none, some, Text, codes, length, is_set, not, ◌≡◌, refl,
}
use filtergen.Filter.Types.{
  AddrSpec, PortSpec, f_source, f_dest, f_proto, f_direction, f_dport, f_icmptype, t_accept, tag_eq,
}
use filtergen.Filter.Tree.{Filter}
use filtergen.Gen.Entry.{FilterEnt, Flags, insert_tag}
use filtergen.Gen.Apply.{filtergen_cprod}
use filtergen.Gen.Entry.{rules}
use filtergen.Gen.Apply.Counts.{IsProductive}
use filtergen.Gen.Apply.Counting.{Counted, cprod-Counted}
use filtergen.Output.Strapp.{
  Line, Written, app, app_word, HasText, HasText-app, HasText-if, length-oputs,
}
use filtergen.Output.Ipfilter.{
  appip, appip_given, appport, appport_given, appicmp, source_text, dest_text, keep_state,
  rule_text, put_rule, cb_ipfilter_rule, cb_ipfilter,
}

HasText-appip_given : (r : Line) (addr : Text) (m : Line) → HasText (appip_given r addr m)
HasText-appip_given r addr none = HasText-app (app r (codes " ")) addr
HasText-appip_given r addr (some m) = HasText-app (app (app_word r addr) (codes "/")) m

HasText-appip : (r : Line) (h : AddrSpec) → HasText (appip r h)
unfolding appip
HasText-appip r h = by_addr h.addrstr
  where
    by_addr :
        (a : Line)
        → HasText
            (elim a [ none ↦ app_word r (codes "any") | some addr ↦ appip_given r addr h.maskstr ])
    by_addr none = HasText-app (app r (codes " ")) (codes "any")
    by_addr (some addr) = HasText-appip_given r addr h.maskstr

HasText-appport_given :
    (r : Line) (min : Text) (m : Line) (neg : Bool) → HasText (appport_given r min m neg)
HasText-appport_given r min none neg = HasText-app _ min
HasText-appport_given r min (some max) neg = HasText-app _ max

HasText-appport : (r : Line) (p : PortSpec) (neg : Bool) → HasText r → HasText (appport r p neg)
unfolding appport
HasText-appport r p neg h = by_min p.minstr
  where
    by_min :
        (m : Line) → HasText (elim m [ none ↦ r | some min ↦ appport_given r min p.maxstr neg ])
    by_min none = h
    by_min (some min) = HasText-appport_given r min p.maxstr neg

HasText-appicmp : (r i : Line) (neg : Bool) → HasText r → HasText (appicmp r i neg)
unfolding appicmp
HasText-appicmp r none neg h = h
HasText-appicmp r (some i) neg h = HasText-app _ i

HasText-keep_state : (ent : FilterEnt) (r : Line) → HasText r → HasText (keep_state ent r)
unfolding keep_state
HasText-keep_state ent r h =
    HasText-if (is_set ent.proto.name && (tag_eq ent.target t_accept && not ent.oneway))
      (app_word r (codes "keep state")) r (HasText-app (app r (codes " ")) (codes "keep state")) h

HasText-dest_text : (ent : FilterEnt) (r : Line) → HasText (dest_text ent r)
unfolding dest_text
HasText-dest_text ent r =
    let to = appip (app_word r (codes "to")) ent.dstaddr in
    HasText-appicmp (appport to ent.dst (ent.whats_negated f_dport)) ent.icmp
      (ent.whats_negated f_icmptype)
      (HasText-appport to ent.dst (ent.whats_negated f_dport)
        (HasText-appip (app_word r (codes "to")) ent.dstaddr))

HasText-rule_text : (ent : FilterEnt) (start : Line) → HasText (rule_text ent start)
unfolding rule_text
HasText-rule_text ent start =
    HasText-keep_state ent (dest_text ent (source_text ent start))
      (HasText-dest_text ent (source_text ent start))

put-Counted :
    (ent : FilterEnt) (start : Option Line) (word : Option Text) (out : Written)
    → Counted length out (put_rule ent start word out)
put-Counted ent none word out = tt
put-Counted ent (some start) none out = tt
put-Counted ent (some start) (some word) out =
    length-oputs (rule_text ent (app_word start word)) out
      (HasText-rule_text ent (app_word start word))

-- The count that `filtergen_cprod` returns with the ipfilter back end is the number of lines that it
-- has written, for every tree and whatever was written before.
pub ipfilter-Counted :
    (flags : Flags) (f : Filter) (out : Written)
    → Counted length out (filtergen_cprod (cb_ipfilter flags) f out)
unfolding cb_ipfilter_rule
ipfilter-Counted flags f out =
    cprod-Counted length (cb_ipfilter flags) (λ e s. put-Counted e _ _ s) refl f out

-- The ipfilter back end writes the same line whether or not the addresses, the protocol and the
-- interface are marked as negated.
pub ipfilter_ignores_negation :
    (ent : FilterEnt) (out : Written)
    → cb_ipfilter_rule
        (record ent {
          whats_negated =
              insert_tag f_source
                (insert_tag f_dest (insert_tag f_proto (insert_tag f_direction ent.whats_negated)));
        })
        out
      ≡ cb_ipfilter_rule ent out
unfolding cb_ipfilter_rule
ipfilter_ignores_negation ent out = refl

put_rule-HasRules :
    (ent : FilterEnt) (start : Option Line) (word : Option Text) (out : Written)
    → (put_rule ent start word out).1 ≢ rules 0
put_rule-HasRules ent none word out = cc
put_rule-HasRules ent (some start) none out = cc
put_rule-HasRules ent (some start) (some word) out = λ eq. ground arith

-- It writes a rule for each entry, or fails.
pub cb_ipfilter-IsProductive : (flags : Flags) → IsProductive (cb_ipfilter flags)
unfolding cb_ipfilter_rule
cb_ipfilter-IsProductive flags e s = put_rule-HasRules e _ _ s
