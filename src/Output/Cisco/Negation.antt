-- ===== src/Output/Cisco/Negation.antt =====
-- What the Cisco back end does with negated entries.
use filtergen.Base.{Bool, true, none, some, Text, ◌≡◌, refl, ap, ap₂, ◌∙◌}
use filtergen.Filter.Types.{PortSpec, f_source, f_dest, f_proto, f_direction, f_sport, f_dport}
use filtergen.Gen.Entry.{FilterEnt, insert_tag, aborted}
use filtergen.Output.Strapp.{Line, Written}
use filtergen.Output.Cisco.{
  appport, list_words, target_word, ports_of, rule_head, with_ports, put_rules, cisco_lines,
  cb_cisco_rule,
}

-- The Cisco back end writes the same lines whether or not the addresses, the protocol and the
-- interface are marked as negated.
pub cisco_ignores_negation :
    (ent : FilterEnt) (out : Written)
    → cb_cisco_rule
        (record ent {
          whats_negated =
              insert_tag f_source
                (insert_tag f_dest (insert_tag f_proto (insert_tag f_direction ent.whats_negated)));
        })
        out
      ≡ cb_cisco_rule ent out
unfolding cb_cisco_rule
cisco_ignores_negation ent out = refl

negated_range :
    (r : Line) (p : PortSpec) (a b : Text) (neg : Bool)
    → p.minstr ≡ some a
    → p.maxstr ≡ some b
    → neg ≡ true
    → appport r p neg ≡ none
unfolding appport
negated_range r p a b neg min max n = rw (n, min, max)

no_ports :
    (needports : Bool) (r : Line) (p : PortSpec) (n : Bool) (q : PortSpec) (m : Bool)
    → needports ≡ true
    → appport r p n ≡ none
    → with_ports needports r p n q m ≡ none
no_ports needports r p n q m e h = rw (e, h)

no_lines :
    (ent : FilterEnt) (list list_r target : Text) (out : Written)
    → ports_of ent.proto.name ent.proto.num ≡ true
    → ((r : Line) → appport r ent.src (ent.whats_negated f_sport) ≡ none)
    → cisco_lines ent (some (list, list_r)) (some target) out ≡ (out, aborted)
no_lines ent list list_r target out p h =
    let head = rule_head ent list target ent.srcaddr ent.dstaddr in
    ap
      (λ r.
        put_rules ent r
          (with_ports (ports_of ent.proto.name ent.proto.num)
            (rule_head ent list_r target ent.dstaddr ent.srcaddr) ent.dst
            (ent.whats_negated f_dport) ent.src (ent.whats_negated f_sport))
          out)
      (no_ports (ports_of ent.proto.name ent.proto.num) head ent.src (ent.whats_negated f_sport)
        ent.dst (ent.whats_negated f_dport) p (h head))

-- A negated source port range on an entry that has a list, a target and ports to print ends the
-- program, with nothing written.
pub cisco_negated_range_aborts :
    (ent : FilterEnt) (lists : Text × Text) (target a b : Text) (out : Written)
    → list_words ent.direction ≡ some lists
    → target_word ent.target ≡ some target
    → ports_of ent.proto.name ent.proto.num ≡ true
    → ent.src.minstr ≡ some a
    → ent.src.maxstr ≡ some b
    → ent.whats_negated f_sport ≡ true
    → cb_cisco_rule ent out ≡ (out, aborted)
unfolding cb_cisco_rule
cisco_negated_range_aborts ent (list, list_r) target a b out l t p min max n =
    ap₂ (λ x y. cisco_lines ent x y out) l t
    ∙ no_lines ent list list_r target out p
        (λ r. negated_range r ent.src a b (ent.whats_negated f_sport) min max n)
