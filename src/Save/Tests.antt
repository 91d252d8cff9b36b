-- ===== src/Save/Tests.antt =====
-- A file of iptables-save, as text and as a tree, and what is left of it.
use filtergen.Base.{some, none, [], codes, true, false, ◌≡◌, refl}
use filtergen.Save.Tree.{
  Table, no_tables, table_list, no_ipts_rules, rule_list, no_options, option_list, jump_option,
}
use filtergen.Save.{ipts_convert}
use filtergen.Save.Scanner.{between, read_save_word, save_scan}
use filtergen.Save.Grammar.{TablesReads}
use filtergen.Save.Printer.{
  emit_tables, emit_table_list, emit_table, emit_ipts_rule_list, emit_ipts_rule, emit_by_options,
  emit_option_list,
}
use filtergen.Save.Words.{IsSaveName}
use filtergen.Save.Printable.{AreTables, IsTable, AreIptsRules, IsIptsRule, IsDeclared, AreOptions}
use filtergen.Save.RoundTrip.{emit_tables-Reads}
use filtergen.Save.Policies.{policies, declared, only_policies_left}

-- *filter, :INPUT DROP [12:960], -A INPUT -j ACCEPT
abbrev filter : Table
filter = record {
  name = codes "filter";
  rule_list =
      rule_list
        (rule_list no_ipts_rules (record {
          chain = codes "INPUT";
          policy = some (codes "DROP");
          pkt_count =
              some (record { packets_in = some (codes "12"); packets_out = some (codes "960") });
          option_list = no_options;
        }))
        (record {
          chain = codes "INPUT";
          policy = none;
          pkt_count = none;
          option_list = option_list no_options (record {
            neg = false;
            option = some (jump_option (some (record { string = some (codes "ACCEPT") })));
          });
        });
}

only_policies_left_example :
    (ipts_convert (table_list no_tables filter) []).0 ≡ policies (declared filter.rule_list)
only_policies_left_example = only_policies_left no_tables filter []

filter_prints :
    emit_tables (table_list no_tables filter)
    ≡ codes "*filter\n:INPUT DROP [12:960]\n-A INPUT -j ACCEPT\nCOMMIT\n"
unfolding emit_tables emit_table_list emit_table emit_ipts_rule_list emit_ipts_rule emit_by_options
    emit_option_list
filter_prints = refl

filter-IsSaveName : IsSaveName (codes "filter")
unfolding read_save_word
filter-IsSaveName = record { is_run = refl; is_read = refl }

input-IsSaveName : IsSaveName (codes "INPUT")
unfolding read_save_word
input-IsSaveName = record { is_run = refl; is_read = refl }

drop-IsSaveName : IsSaveName (codes "DROP")
unfolding read_save_word
drop-IsSaveName = record { is_run = refl; is_read = refl }

accept-IsSaveName : IsSaveName (codes "ACCEPT")
unfolding read_save_word
accept-IsSaveName = record { is_run = refl; is_read = refl }

packets-IsSaveName : IsSaveName (codes "12")
unfolding read_save_word
packets-IsSaveName = record { is_run = refl; is_read = refl }

bytes-IsSaveName : IsSaveName (codes "960")
unfolding read_save_word
bytes-IsSaveName = record { is_run = refl; is_read = refl }

filter-AreTables : AreTables (table_list no_tables filter)
unfolding AreTables IsTable AreIptsRules IsIptsRule IsDeclared AreOptions
filter-AreTables = (
  tt,
  (
    filter-IsSaveName,
    (
      (tt, (input-IsSaveName, (drop-IsSaveName, (packets-IsSaveName, bytes-IsSaveName)))),
      (input-IsSaveName, ((tt, accept-IsSaveName), tt)),
    ),
  ),
)

emit_tables-Reads_example :
    TablesReads
      (save_scan (between true) (emit_tables (table_list no_tables filter)))
      (table_list no_tables filter)
      []
emit_tables-Reads_example = emit_tables-Reads (table_list no_tables filter) filter-AreTables

-- A rule without options is printed as a chain without a policy, which the grammar does not have.
rule_without_options :
    emit_ipts_rule
      record { chain = codes "INPUT"; policy = none; pkt_count = none; option_list = no_options }
      []
    ≡ codes ":INPUT\n"
unfolding emit_ipts_rule emit_by_options
rule_without_options = refl
