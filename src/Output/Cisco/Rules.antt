-- ===== src/Output/Cisco/Rules.antt =====
-- What the Cisco back end writes for one entry.
use filtergen.Base.{
  ◌≢◌, Bool, true, false, ◌&&◌, not, if◌then◌else◌, Option, none, some, Text, codes, length, refl,
  arith,
}
use filtergen.Base.Int.{int_is}
use filtergen.Filter.Types.{AddrSpec, PortSpec, f_log}
use filtergen.Filter.Tree.{Filter}
use filtergen.Gen.Entry.{FilterEnt, Flags}
use filtergen.Gen.Check.{ipproto_tcp}
use filtergen.Gen.Apply.{filtergen_cprod}
use filtergen.Gen.Entry.{rules}
use filtergen.Gen.Apply.Counts.{IsProductive}
use filtergen.Gen.Apply.Counting.{Counted, cprod-Counted}
use filtergen.Output.Strapp.{
  Line, Written, app, app_word, oputs, HasText, HasText-app, HasText-if, length-oputs,
}
use filtergen.Output.Cisco.{
  appip, appip_given, appport, appport_given, list_name, returns_of, protocol_word, rule_head,
  and_port, with_ports, established, logged, put_both, put_rules, cisco_lines, cb_cisco_rule,
  cb_cisco,
}

HasText-appip_given : (r : Line) (addr : Text) (m : Line) → HasText (appip_given r addr m)
HasText-appip_given r addr none = HasText-app (app_word r (codes "host ")) addr
HasText-appip_given r addr (some m) = HasText-app (app (app_word r addr) (codes " ")) m

HasText-appip : (r : Line) (h : AddrSpec) → HasText (appip r h)
unfolding appip
HasText-appip r h = by_addr h.addrstr
  where
    by_addr :
        (a : Line)
        → HasText
            (elim a [ none ↦ app_word r (codes "any") | some addr ↦ appip_given r addr h.maskstr ])
    by_addr none = HasText-app (app r (codes " ")) (codes "any")
    by_addr (some addr) = HasText-appip_given r addr h.maskstr

-- If there is a line, it is not null.
abbrev MayHaveText : Option Line → Type 0
MayHaveText none = Unit {0}
MayHaveText (some r) = HasText r

given_port :
    (r : Line) (min : Text) (m : Line) (neg : Bool) → MayHaveText (appport_given r min m neg)
given_port r min none neg = HasText-app (app_word r (if neg then codes "ne " else codes "eq ")) min
given_port r min (some max) true = tt
given_port r min (some max) false =
    HasText-app (app (app_word (app_word r (codes "range")) min) (codes " ")) max

text_of_port : (r : Line) (p : PortSpec) (neg : Bool) → MayHaveText (appport r p neg)
unfolding appport
text_of_port r p neg = by_min p.minstr
  where
    by_min :
        (m : Line)
        → MayHaveText (elim m [
          | none ↦ some (app_word r (codes "any"))
          | some min ↦ appport_given r min p.maxstr neg
        ])
    by_min none = HasText-app (app r (codes " ")) (codes "any")
    by_min (some min) = given_port r min p.maxstr neg

second_port : (r : Option Line) (p : PortSpec) (neg : Bool) → MayHaveText (and_port r p neg)
second_port none p neg = tt
second_port (some r) p neg = text_of_port r p neg

text_of_ports :
    (b : Bool) (r : Line) (p : PortSpec) (n : Bool) (q : PortSpec) (m : Bool)
    → HasText r
    → MayHaveText (with_ports b r p n q m)
text_of_ports true r p n q m h = second_port (appport r p n) q m
text_of_ports false r p n q m h = h

text_of_head :
    (ent : FilterEnt) (list target : Text) (from to : AddrSpec)
    → HasText (rule_head ent list target from to)
unfolding rule_head
text_of_head ent list target from to =
    HasText-appip
      (appip
        (app_word
          (app_word (app (list_name (app none (codes "access-list ")) ent.iface) list) target)
          (protocol_word ent.proto.name))
        from)
      to

both-Counted :
    (b : Bool) (r q : Line) (out : Written)
    → HasText r
    → HasText q
    → Counted length out (put_both b r q out)
both-Counted true r q out hr hq =
    omega (arith, length-oputs r out hr, length-oputs q (oputs r out) hq)
both-Counted false r q out hr hq = length-oputs r out hr

rules-Counted :
    (ent : FilterEnt) (r q : Option Line) (out : Written)
    → MayHaveText r
    → MayHaveText q
    → Counted length out (put_rules ent r q out)
rules-Counted ent none q out hr hq = tt
rules-Counted ent (some r) none out hr hq = tt
rules-Counted ent (some r) (some q) out hr hq =
    both-Counted (returns_of ent.proto.name ent.proto.num && not ent.oneway) (logged ent r)
      (established ent q) out
      (HasText-if (ent.whats_set f_log) (app_word r (codes "log")) r
        (HasText-app (app r (codes " ")) (codes "log")) hr)
      (HasText-if (int_is ent.proto.num ipproto_tcp) (app_word q (codes "established")) q
        (HasText-app (app q (codes " ")) (codes "established")) hq)

lines-Counted :
    (ent : FilterEnt) (lists : Option (Text × Text)) (target : Option Text) (out : Written)
    → Counted length out (cisco_lines ent lists target out)
lines-Counted ent none target out = tt
lines-Counted ent (some (a, b)) none out = tt
lines-Counted ent (some (a, b)) (some t) out =
    rules-Counted ent _ _ out
      (text_of_ports _ _ ent.src _ ent.dst _ (text_of_head ent a t ent.srcaddr ent.dstaddr))
      (text_of_ports _ _ ent.dst _ ent.src _ (text_of_head ent b t ent.dstaddr ent.srcaddr))

-- The count that `filtergen_cprod` returns with the Cisco back end is the number of lines that it has
-- written, rules and returning rules, for every tree and whatever was written before.
pub cisco-Counted :
    (flags : Flags) (f : Filter) (out : Written)
    → Counted length out (filtergen_cprod (cb_cisco flags) f out)
unfolding cb_cisco_rule
cisco-Counted flags f out =
    cprod-Counted length (cb_cisco flags) (λ e s. lines-Counted e _ _ s) refl f out

put_both-HasRules : (b : Bool) (r q : Line) (out : Written) → (put_both b r q out).1 ≢ rules 0
put_both-HasRules true r q out = λ eq. ground arith
put_both-HasRules false r q out = λ eq. ground arith

put_rules-HasRules :
    (ent : FilterEnt) (r q : Option Line) (out : Written) → (put_rules ent r q out).1 ≢ rules 0
put_rules-HasRules ent none q out = cc
put_rules-HasRules ent (some r) none out = cc
put_rules-HasRules ent (some r) (some q) out = put_both-HasRules _ _ _ out

lines-HasRules :
    (ent : FilterEnt) (lists : Option (Text × Text)) (target : Option Text) (out : Written)
    → (cisco_lines ent lists target out).1 ≢ rules 0
lines-HasRules ent none target out = cc
lines-HasRules ent (some (a, b)) none out = cc
lines-HasRules ent (some (a, b)) (some t) out = put_rules-HasRules ent _ _ out

-- It writes a rule or two for each entry, or fails.
pub cb_cisco-IsProductive : (flags : Flags) → IsProductive (cb_cisco flags)
unfolding cb_cisco_rule
cb_cisco-IsProductive flags e s = lines-HasRules e _ _ s
