-- ===== src/Save/RoundTrip.antt =====
-- What t/emit.c of iptables-save prints, scanner.l and parser.y read as the same tree.
use mathlib.Core.Path.{subst}
use filtergen.Base.{true, false, Option, none, some, Text, [], ◌∷◌, ◌++◌, codes, refl, sym, ap, ◌∙◌}
use filtergen.Save.Tree.{
  PktCount, OptionList, no_options, option_list, IptsRuleList, no_ipts_rules, rule_list, TableList,
  no_tables, table_list,
}
use filtergen.Save.Scanner.{
  sign, save_name, tok_chain, tok_chain_append, tok_table, between, save_byte, save_scan,
}
use filtergen.Save.Grammar.{
  IptsRuleReads, reads_policy, reads_rule, reads_counted_rule, PktCountReads, IptsRulesReads,
  end_ipts_rules, more_ipts_rules, TableReads, reads_table, TablesReads, end_tables, more_tables,
}
use filtergen.Save.Printer.{
  emit_pkt_count, emit_option_list, emit_by_options, emit_ipts_rule, emit_ipts_rule_list,
  emit_table, emit_table_list, emit_tables,
}
use filtergen.Save.Printable.{IsDeclared, IsIptsRule, AreIptsRules, IsTable, AreTables}
use filtergen.Save.Words.{IsSaveName, save_scan-name}
use filtergen.Save.Arguments.{pkt_count-Reads}
use filtergen.Save.Options.{options-Reads}

-- A rule is read from the start of its line to the start of the next.
declared-Reads :
    (l : OptionList) (chain : Text) (policy : Option Text) (counts : Option PktCount) (k : Text)
    → IsSaveName chain
    → IsDeclared l policy counts
    → IptsRuleReads
        (save_scan (between true) (emit_by_options l chain policy counts (b'\n' ∷ k)))
        record { chain = chain; policy = policy; pkt_count = counts; option_list = l }
        (save_scan (between true) k)
unfolding save_scan save_byte emit_by_options IsDeclared
declared-Reads no_options chain (some policy) (some counts) k is (is_policy, ok) =
    let behind = b' ' ∷ emit_pkt_count counts (b'\n' ∷ k) in
    subst
      (λ ts.
        IptsRuleReads (sign tok_chain ∷ ts)
          record {
            chain = chain;
            policy = some policy;
            pkt_count = some counts;
            option_list = no_options;
          }
          (save_scan (between true) k))
      (sym (
        save_scan-name chain (b' ' ∷ (policy ++ behind)) is refl
        ∙ ap (λ ts. save_name chain ∷ ts) (save_scan-name policy behind is_policy refl)))
      (reads_policy (pkt_count-Reads false counts (b'\n' ∷ k) ok))
declared-Reads no_options chain none counts k is ok = absurd ok
declared-Reads no_options chain (some policy) none k is ok = absurd ok
declared-Reads (option_list l n) chain none none k is (ok, u) =
    subst
      (λ ts.
        IptsRuleReads (sign tok_chain_append ∷ ts)
          record { chain = chain; policy = none; pkt_count = none; option_list = option_list l n }
          (save_scan (between true) k))
      (sym (save_scan-name chain (b' ' ∷ emit_option_list (option_list l n) (b'\n' ∷ k)) is refl))
      (reads_rule (options-Reads (option_list l n) (b'\n' ∷ k) ok refl))
declared-Reads (option_list l n) chain none (some counts) k is (ok, are_counts) =
    let command = chain ++ b' ' ∷ emit_option_list (option_list l n) (b'\n' ∷ k) in
    reads_counted_rule
      (subst
        (λ ts.
          PktCountReads (save_scan (between true) (emit_pkt_count counts (codes " -A " ++ command)))
            counts (sign tok_chain_append ∷ ts))
        (save_scan-name chain (b' ' ∷ emit_option_list (option_list l n) (b'\n' ∷ k)) is refl)
        (pkt_count-Reads true counts (codes " -A " ++ command) are_counts))
      (options-Reads (option_list l n) (b'\n' ∷ k) ok refl)
declared-Reads (option_list l n) chain (some policy) counts k is ok = absurd ok

rules-Reads :
    (l : IptsRuleList) (k : Text)
    → AreIptsRules l
    → IptsRulesReads
        (save_scan (between true) (emit_ipts_rule_list l k))
        l
        (save_scan (between true) k)
unfolding emit_ipts_rule_list emit_ipts_rule AreIptsRules IsIptsRule
rules-Reads no_ipts_rules k ok = end_ipts_rules
rules-Reads (rule_list l n) k (ok, (is, declared)) =
    more_ipts_rules (rules-Reads l (emit_ipts_rule n k) ok)
      (declared-Reads n.option_list n.chain n.policy n.pkt_count k is declared)

named-Reads :
    (called : Text) (l : IptsRuleList) (k : Text)
    → IsSaveName called
    → AreIptsRules l
    → TableReads
        (save_scan
          (between true)
          (b'*' ∷ (called ++ b'\n' ∷ emit_ipts_rule_list l (codes "COMMIT\n" ++ k))))
        record { name = called; rule_list = l }
        (save_scan (between true) k)
unfolding save_scan save_byte
named-Reads called l k is ok =
    subst
      (λ ts.
        TableReads (sign tok_table ∷ ts) record { name = called; rule_list = l }
          (save_scan (between true) k))
      (sym (save_scan-name called (b'\n' ∷ emit_ipts_rule_list l (codes "COMMIT\n" ++ k)) is refl))
      (reads_table (rules-Reads l (codes "COMMIT\n" ++ k) ok))

tables-Reads :
    (l : TableList) (k : Text)
    → AreTables l
    → TablesReads (save_scan (between true) (emit_table_list l k)) l (save_scan (between true) k)
unfolding emit_table_list emit_table AreTables IsTable
tables-Reads no_tables k ok = end_tables
tables-Reads (table_list l t) k (ok, (is, are)) =
    more_tables (tables-Reads l (emit_table t k) ok) (named-Reads t.name t.rule_list k is are)

-- Where the strings of a tree are words that are no options, each option has the arguments that the
-- grammar asks for, and each rule has either options and no policy, or a policy with its counters and
-- no options: the scanner and the grammar of iptables-save read what `t/emit` prints of the tree as
-- that tree.
pub emit_tables-Reads :
    (l : TableList) → AreTables l → TablesReads (save_scan (between true) (emit_tables l)) l []
unfolding save_scan emit_tables
emit_tables-Reads l ok = tables-Reads l [] ok
