-- ===== src/Syntax/RoundTrip.antt =====
-- What t/emit.c prints, scanner.l and parser.y read as the same tree.
use mathlib.Core.Path.{subst}
use filtergen.Base.{true, false, none, some, Text, [], ◌∷◌, ◌++◌, codes, ◌≡◌, refl, sym}
use filtergen.Glue.Ast.{
  Token, tok_accept, tok_dest, tok_dport, tok_drop, tok_forward, tok_input, tok_local, tok_log,
  tok_masq, tok_oneway, tok_output, tok_proxy, tok_redirect, tok_reject, tok_source, tok_sport,
  tok_lsquare, Specifier, compound, direction, target, host, protocol, port, icmptype, option,
  chaingroup, nothing, NegatedSpecifier, no_specifier, specifier, SpecifierList, no_specifiers,
  specifiers, SubruleList, no_subrules, subrules, no_rule, rule, RuleList, no_rules, rules, Ast,
}
use filtergen.Syntax.Scanner.{token, start, scan_byte, scan}
use filtergen.Syntax.Grammar.{
  is_target_token, is_plain_option, is_direction, is_end, is_port, named_directions, SpecifierReads,
  read_compound, read_direction, read_target, read_host, read_port, read_protocol, read_icmptype,
  read_bare_option, read_group, read_named_group, NegatedReads, read_plain, read_negated,
  SpecifiersReads, end_specifiers, more_specifiers, SubrulesReads, first_subrule, more_subrules,
  RulesReads, end_rules, more_rules, AstReads, read_ast,
}
use filtergen.Syntax.Printer.{
  emit_direction_type, emit_host_type, emit_port_type, emit_target_specifier, emit_option_specifier,
  emit_specifier, emit_negated_specifier, emit_specifier_list, emit_subrule_list, emit_rule,
  emit_rule_list, emit_ast, emit_braced, emit_direction_argument, emit_host_argument,
  emit_port_argument,
}
use filtergen.Syntax.Printable.{
  is_proxy, IsPrintable, IsPrintableNegated, ArePrintable, ArePrintableSubrules, IsPrintableRule,
  ArePrintableRules,
}
use filtergen.Syntax.Words.{ends_word, scan_run, scan-string}
use filtergen.Syntax.Arguments.{texts-Reads, directions-Reads, hosts-Reads, ports-Reads}

-- The words before the lists, and those that stand alone.
direction_type-scan :
    (type : Token) (k : Text)
    → is_direction type ≡ true
    → scan start (emit_direction_type type ++ k) ≡ token type ∷ scan start k
unfolding scan scan_byte
direction_type-scan tok_input k is = refl
direction_type-scan tok_output k is = refl
direction_type-scan type k is = cc

host_type-scan :
    (type : Token) (k : Text)
    → is_end type ≡ true
    → scan start (emit_host_type type ++ k) ≡ token type ∷ scan start k
unfolding scan scan_byte
host_type-scan tok_source k is = refl
host_type-scan tok_dest k is = refl
host_type-scan type k is = cc

port_type-scan :
    (type : Token) (k : Text)
    → is_port type ≡ true
    → scan start (emit_port_type type ++ k) ≡ token type ∷ scan start k
unfolding scan scan_byte
port_type-scan tok_sport k is = refl
port_type-scan tok_dport k is = refl
port_type-scan type k is = cc

target-scan :
    (type : Token) (k : Text)
    → is_target_token type ≡ true
    → is_proxy type ≡ false
    → ends_word k ≡ true
    → scan start (emit_target_specifier type ++ k) ≡ token type ∷ scan start k
unfolding scan scan_byte
target-scan tok_accept k is other ends =
    scan_run (codes "accept") k (token tok_accept ∷ []) refl ends refl
target-scan tok_reject k is other ends =
    scan_run (codes "reject") k (token tok_reject ∷ []) refl ends refl
target-scan tok_drop k is other ends =
    scan_run (codes "drop") k (token tok_drop ∷ []) refl ends refl
target-scan tok_masq k is other ends =
    scan_run (codes "masq") k (token tok_masq ∷ []) refl ends refl
target-scan tok_redirect k is other ends =
    scan_run (codes "redirect") k (token tok_redirect ∷ []) refl ends refl
target-scan tok_proxy k is other ends = cc
target-scan type k is other ends = cc

option-scan :
    (type : Token) (k : Text)
    → is_plain_option type ≡ true
    → ends_word k ≡ true
    → scan start (emit_option_specifier type none k) ≡ token type ∷ scan start k
unfolding scan scan_byte
option-scan tok_local k is ends = scan_run (codes "local") k (token tok_local ∷ []) refl ends refl
option-scan tok_forward k is ends =
    scan_run (codes "forward") k (token tok_forward ∷ []) refl ends refl
option-scan tok_oneway k is ends =
    scan_run (codes "oneway") k (token tok_oneway ∷ []) refl ends refl
option-scan tok_log k is ends = scan_run (codes "log") k (token tok_log ∷ []) refl ends refl
option-scan type k is ends = cc

mutual
  unfolding scan scan_byte IsPrintable emit_specifier

  specifier-Reads :
      (s : Specifier) (k : Text)
      → IsPrintable s
      → ends_word k ≡ true
      → SpecifierReads (scan start (emit_specifier s k)) s (scan start k)
  specifier-Reads (compound l pos pos') k ok ends =
      read_compound (subrules-Reads l (b'}' ∷ k) ok refl)
  specifier-Reads (direction type l pos pos') k (is, ok) ends =
      subst (λ ts. SpecifierReads ts (direction type l pos pos') (scan start k))
        (sym (direction_type-scan type (emit_braced emit_direction_argument l k) is))
        (read_direction is (named_directions (directions-Reads l k ok)))
  specifier-Reads (target type pos) k (is, other) ends =
      subst (λ ts. SpecifierReads ts (target type pos) (scan start k))
        (sym (target-scan type k is other ends)) (read_target is)
  specifier-Reads (host type l pos pos') k (is, ok) ends =
      subst (λ ts. SpecifierReads ts (host type l pos pos') (scan start k))
        (sym (host_type-scan type (emit_braced emit_host_argument l k) is))
        (read_host is (hosts-Reads l k ok))
  specifier-Reads (protocol l pos pos') k ok ends = read_protocol (texts-Reads l k ok)
  specifier-Reads (port type l pos pos') k (is, some_port, ok) ends =
      subst (λ ts. SpecifierReads ts (port type l pos pos') (scan start k))
        (sym (port_type-scan type (emit_braced emit_port_argument l k) is))
        (read_port is (ports-Reads l k some_port ok))
  specifier-Reads (icmptype l pos pos') k ok ends = read_icmptype (texts-Reads l k ok)
  specifier-Reads (option type none pos pos') k (is, same) ends =
      subst (λ ts. SpecifierReads ts (option type none pos pos') (scan start k))
        (sym (option-scan type k is ends)) (read_bare_option is)
  specifier-Reads (option type (some m) pos pos') k (is, same) ends = cc same
  specifier-Reads (chaingroup none l pos pos') k (name, ok) ends =
      read_group (subrules-Reads l (b']' ∷ k) ok refl)
  specifier-Reads (chaingroup (some s) l pos pos') k (name, ok) ends =
      subst
        (λ ts.
          SpecifierReads (token tok_lsquare ∷ ts) (chaingroup (some s) l pos pos') (scan start k))
        (sym (scan-string s (emit_subrule_list l (b']' ∷ k)) name))
        (read_named_group (subrules-Reads l (b']' ∷ k) ok refl))
  specifier-Reads (nothing pos) k ok ends = absurd ok

  negated-Reads :
      (n : NegatedSpecifier) (k : Text)
      → IsPrintableNegated n
      → ends_word k ≡ true
      → NegatedReads (scan start (emit_negated_specifier n k)) n (scan start k)
  negated-Reads no_specifier k ok ends = absurd ok
  negated-Reads (specifier true s pos) k ok ends = read_negated (specifier-Reads s k ok ends)
  negated-Reads (specifier false s pos) k ok ends = read_plain (specifier-Reads s k ok ends)

  specifiers-Reads :
      (l : SpecifierList) (k : Text)
      → ArePrintable l
      → ends_word k ≡ true
      → SpecifiersReads (scan start (emit_specifier_list l k)) l (scan start k)
  specifiers-Reads no_specifiers k ok ends = end_specifiers
  specifiers-Reads (specifiers no_specifiers n pos) k (ok, is) ends =
      more_specifiers end_specifiers (negated-Reads n k is ends)
  specifiers-Reads (specifiers (specifiers l m pos') n pos) k (ok, is) ends =
      more_specifiers
        (specifiers-Reads (specifiers l m pos') (b' ' ∷ emit_negated_specifier n k) ok refl)
        (negated-Reads n k is ends)

  subrules-Reads :
      (l : SubruleList) (k : Text)
      → ArePrintableSubrules l
      → ends_word k ≡ true
      → SubrulesReads (scan start (emit_subrule_list l k)) l (scan start k)
  subrules-Reads no_subrules k ok ends = absurd ok
  subrules-Reads (subrules no_subrules s pos) k ok ends =
      first_subrule (specifiers-Reads s k ok ends)
  subrules-Reads (subrules (subrules l t pos') s pos) k (ok, is) ends =
      more_subrules
        (subrules-Reads (subrules l t pos') (b';' ∷ b'\n' ∷ emit_specifier_list s k) ok refl)
        (specifiers-Reads s k is ends)

rules-Reads :
    (l : RuleList) (k : Text)
    → ArePrintableRules l
    → RulesReads (scan start (emit_rule_list l k)) l (scan start k)
unfolding scan scan_byte ArePrintableRules IsPrintableRule emit_rule_list emit_rule
rules-Reads no_rules k ok = end_rules
rules-Reads (rules l no_rule pos) k (ok, empty) = absurd empty
rules-Reads (rules l (rule s pos) pos') k (ok, is) =
    more_rules (rules-Reads l (emit_specifier_list s (b';' ∷ b'\n' ∷ k)) ok)
      (specifiers-Reads s (b';' ∷ b'\n' ∷ k) is refl)

-- Where the interfaces, hosts, ports, protocols and types of a tree are identifiers, the ends of a
-- port range are words without a colon, a port specifier has a port, a block or group has a part and
-- its name, if any, is one line of text, no option has a message and no target is `proxy`: the scanner
-- and the grammar read what `t/emit` prints of the tree as that tree.
pub emit_ast-Reads :
    (a : Ast) → ArePrintableRules (Ast.list a) → AstReads (scan start (emit_ast a)) a
unfolding scan scan_byte emit_ast
emit_ast-Reads a ok = read_ast (rules-Reads (Ast.list a) [] ok)
