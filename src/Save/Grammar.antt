-- ===== src/Save/Grammar.antt =====
-- input/iptables-save/parser.y: the productions, each with the tree it builds, as relations between
-- the lexemes before, the tree and the lexemes left. The pointers that the parser does not write are
-- taken for null.
use filtergen.Base.{true, false, none, some, Text, List, ◌∷◌}
use filtergen.Save.Tree.{
  PktCount, Identifier, NotIdentifier, Range, NotRange, NegatableOption, PortOption, PlainOption,
  BareOption, IptsOption, in_interface_option, jump_option, negatable_option, port_option,
  plain_option, tcp_flags_option, bare_option, NotOption, OptionList, no_options, option_list,
  IptsRule, IptsRuleList, no_ipts_rules, rule_list, Table, TableList, no_tables, table_list,
}
use filtergen.Save.Scanner.{
  SaveLexeme, sign, save_name, tok_table, tok_chain, tok_chain_append, tok_commit, tok_in_interface,
  tok_jump, tok_tcp_flags, tok_negatable, tok_port, tok_plain, tok_bare, tok_save_lsquare,
  tok_save_rsquare, tok_save_colon, tok_save_bang, tok_quote,
}

pub data IdentifierReads : List SaveLexeme → Identifier → List SaveLexeme → Type 0 where
  plain_identifier :
      {w : Text} {k : List SaveLexeme}
      → IdentifierReads (save_name w ∷ k) record { string = some w } k
  quoted_identifier :
      {w : Text} {k : List SaveLexeme}
      → IdentifierReads
          (sign tok_quote ∷ save_name w ∷ sign tok_quote ∷ k)
          record { string = some w }
          k

pub data NotIdentifierReads : List SaveLexeme → NotIdentifier → List SaveLexeme → Type 0 where
  is_identifier :
      {ts k : List SaveLexeme} {i : Identifier}
      → IdentifierReads ts i k
      → NotIdentifierReads ts record { neg = false; identifier = some i } k
  isnt_identifier :
      {ts k : List SaveLexeme} {i : Identifier}
      → IdentifierReads ts i k
      → NotIdentifierReads (sign tok_save_bang ∷ ts) record { neg = true; identifier = some i } k

pub data RangeReads : List SaveLexeme → Range → List SaveLexeme → Type 0 where
  whole_range :
      {ts mid k : List SaveLexeme} {i j : Identifier}
      → IdentifierReads ts i (sign tok_save_colon ∷ mid)
      → IdentifierReads mid j k
      → RangeReads ts record { start = some i; end = some j } k
  lower_range :
      {ts k : List SaveLexeme} {i : Identifier}
      → IdentifierReads ts i (sign tok_save_colon ∷ k)
      → RangeReads ts record { start = some i; end = none } k
  upper_range :
      {ts k : List SaveLexeme} {j : Identifier}
      → IdentifierReads ts j k
      → RangeReads (sign tok_save_colon ∷ ts) record { start = none; end = some j } k

pub data NotRangeReads : List SaveLexeme → NotRange → List SaveLexeme → Type 0 where
  is_range :
      {ts k : List SaveLexeme} {r : Range}
      → RangeReads ts r k
      → NotRangeReads ts record { neg = false; range = some r } k
  isnt_range :
      {ts k : List SaveLexeme} {r : Range}
      → RangeReads ts r k
      → NotRangeReads (sign tok_save_bang ∷ ts) record { neg = true; range = some r } k

pub data OptionReads : List SaveLexeme → IptsOption → List SaveLexeme → Type 0 where
  reads_in_interface :
      {ts k : List SaveLexeme} {n : NotIdentifier}
      → NotIdentifierReads ts n k
      → OptionReads (sign tok_in_interface ∷ ts) (in_interface_option (some n)) k
  reads_jump :
      {ts k : List SaveLexeme} {i : Identifier}
      → IdentifierReads ts i k
      → OptionReads (sign tok_jump ∷ ts) (jump_option (some i)) k
  reads_negatable :
      {ts k : List SaveLexeme} {o : NegatableOption} {n : NotIdentifier}
      → NotIdentifierReads ts n k
      → OptionReads (sign (tok_negatable o) ∷ ts) (negatable_option o (some n)) k
  reads_range :
      {ts k : List SaveLexeme} {o : PortOption} {r : NotRange}
      → NotRangeReads ts r k
      → OptionReads (sign (tok_port o) ∷ ts) (port_option o (some r) none) k
  reads_port :
      {ts k : List SaveLexeme} {o : PortOption} {n : NotIdentifier}
      → NotIdentifierReads ts n k
      → OptionReads (sign (tok_port o) ∷ ts) (port_option o none (some n)) k
  reads_plain :
      {ts k : List SaveLexeme} {o : PlainOption} {i : Identifier}
      → IdentifierReads ts i k
      → OptionReads (sign (tok_plain o) ∷ ts) (plain_option o (some i)) k
  reads_tcp_flags :
      {ts mid k : List SaveLexeme} {i j : Identifier}
      → IdentifierReads ts i mid
      → IdentifierReads mid j k
      → OptionReads (sign tok_tcp_flags ∷ ts) (tcp_flags_option (some i) (some j)) k
  reads_bare :
      {k : List SaveLexeme} {o : BareOption} → OptionReads (sign (tok_bare o) ∷ k) (bare_option o) k

pub data NotOptionReads : List SaveLexeme → NotOption → List SaveLexeme → Type 0 where
  is_option :
      {ts k : List SaveLexeme} {o : IptsOption}
      → OptionReads ts o k
      → NotOptionReads ts record { neg = false; option = some o } k
  isnt_option :
      {ts k : List SaveLexeme} {o : IptsOption}
      → OptionReads ts o k
      → NotOptionReads (sign tok_save_bang ∷ ts) record { neg = true; option = some o } k

pub data OptionsReads : List SaveLexeme → OptionList → List SaveLexeme → Type 0 where
  end_options : {k : List SaveLexeme} → OptionsReads k no_options k
  more_options :
      {ts mid k : List SaveLexeme} {l : OptionList} {n : NotOption}
      → OptionsReads ts l mid
      → NotOptionReads mid n k
      → OptionsReads ts (option_list l n) k

pub data PktCountReads : List SaveLexeme → PktCount → List SaveLexeme → Type 0 where
  reads_counts :
      {i o : Text} {k : List SaveLexeme}
      → PktCountReads
          (sign tok_save_lsquare
            ∷ save_name i
            ∷ sign tok_save_colon
            ∷ save_name o
            ∷ sign tok_save_rsquare
            ∷ k)
          record { packets_in = some i; packets_out = some o }
          k

pub data IptsRuleReads : List SaveLexeme → IptsRule → List SaveLexeme → Type 0 where
  reads_policy :
      {ts k : List SaveLexeme} {chain policy : Text} {counts : PktCount}
      → PktCountReads ts counts k
      → IptsRuleReads
          (sign tok_chain ∷ save_name chain ∷ save_name policy ∷ ts)
          record {
            chain = chain;
            policy = some policy;
            pkt_count = some counts;
            option_list = no_options;
          }
          k
  reads_rule :
      {ts k : List SaveLexeme} {chain : Text} {l : OptionList}
      → OptionsReads ts l k
      → IptsRuleReads
          (sign tok_chain_append ∷ save_name chain ∷ ts)
          record { chain = chain; policy = none; pkt_count = none; option_list = l }
          k
  reads_counted_rule :
      {ts mid k : List SaveLexeme} {chain : Text} {counts : PktCount} {l : OptionList}
      → PktCountReads ts counts (sign tok_chain_append ∷ save_name chain ∷ mid)
      → OptionsReads mid l k
      → IptsRuleReads ts
          record { chain = chain; policy = none; pkt_count = some counts; option_list = l }
          k

pub data IptsRulesReads : List SaveLexeme → IptsRuleList → List SaveLexeme → Type 0 where
  end_ipts_rules : {k : List SaveLexeme} → IptsRulesReads k no_ipts_rules k
  more_ipts_rules :
      {ts mid k : List SaveLexeme} {l : IptsRuleList} {n : IptsRule}
      → IptsRulesReads ts l mid
      → IptsRuleReads mid n k
      → IptsRulesReads ts (rule_list l n) k

pub data TableReads : List SaveLexeme → Table → List SaveLexeme → Type 0 where
  reads_table :
      {ts k : List SaveLexeme} {called : Text} {l : IptsRuleList}
      → IptsRulesReads ts l (sign tok_commit ∷ k)
      → TableReads
          (sign tok_table ∷ save_name called ∷ ts)
          record { name = called; rule_list = l }
          k

pub data TablesReads : List SaveLexeme → TableList → List SaveLexeme → Type 0 where
  end_tables : {k : List SaveLexeme} → TablesReads k no_tables k
  more_tables :
      {ts mid k : List SaveLexeme} {l : TableList} {t : Table}
      → TablesReads ts l mid
      → TableReads mid t k
      → TablesReads ts (table_list l t) k
