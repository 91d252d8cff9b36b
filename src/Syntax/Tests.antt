-- ===== src/Syntax/Tests.antt =====
-- Texts of the language, trees, and what they read and print.
use filtergen.Base.{true, false, none, some, Text, [], ◌∷◌, codes, ◌≡◌, refl}
use filtergen.Glue.Ast.{
  tok_accept, tok_dest, tok_dport, tok_input, tok_local, tok_source, tok_colon, tok_semicolon,
  tok_slash, tok_log, tok_text, no_list, arguments, compound, direction, target, host, port, option,
  chaingroup, specifier, no_specifiers, specifiers, no_subrules, subrules, rule, no_rules, rules,
  Ast,
}
use filtergen.Syntax.Scanner.{
  token, identifier, included, start, scan_byte, scan, read_word, read_run,
}
use filtergen.Syntax.Grammar.{AstReads}
use filtergen.Syntax.Printer.{emit_ast, emit_specifier, emit_rule_list, emit_rule, emit_braced}
use filtergen.Syntax.Printable.{ArePrintableRules, IsPrintable, IsPrintableRule}
use filtergen.Syntax.Words.{IsWord, IsIdentifier}
use filtergen.Syntax.RoundTrip.{emit_ast-Reads}
use filtergen.Syntax.Comments.{scan-comment}

-- `input eth0 ! source { 10.0.0.1/8 } dport ssh:25 { accept; local } [ "web"` ... `]`.
abbrev office : Ast
office = record {
  list =
      rules no_rules
        (rule
          (specifiers
            (specifiers
              (specifiers
                (specifiers
                  (specifiers no_specifiers
                    (specifier false
                      (direction tok_input
                        (arguments no_list (some record { content = some (codes "eth0"); pos = 1 })
                          1)
                        1 1)
                      1)
                    1)
                  (specifier true
                    (host tok_source
                      (arguments no_list
                        (some record {
                          host = some (codes "10.0.0.1");
                          mask = some (codes "8");
                          pos = 2;
                        })
                        2)
                      2 2)
                    2)
                  2)
                (specifier false
                  (port tok_dport
                    (arguments no_list
                      (some record {
                        port_min = some (codes "ssh");
                        port_max = some (codes "25");
                        pos = 3;
                      })
                      3)
                    3 3)
                  3)
                3)
              (specifier false
                (compound
                  (subrules
                    (subrules no_subrules
                      (specifiers no_specifiers (specifier false (target tok_accept 4) 4) 4) 4)
                    (specifiers no_specifiers (specifier false (option tok_local none 5 5) 5) 5) 5)
                  5 5)
                5)
              5)
            (specifier false
              (chaingroup (some (codes "web"))
                (subrules no_subrules
                  (specifiers no_specifiers
                    (specifier false
                      (host tok_dest
                        (arguments no_list
                          (some record { host = some (codes "::1"); mask = none; pos = 6 }) 6)
                        6 6)
                      6)
                    6)
                  6)
                6 6)
              6)
            6)
          7)
        7;
  pos = 8;
}

abbrev office_text : Text
office_text =
    codes
      "input { eth0 } ! source { 10.0.0.1/8 } dport { ssh:25 } {accept;\nlocal} [ \"web\"\ndest { ::1 }];\n"

office_prints : emit_ast office ≡ office_text
unfolding emit_ast emit_specifier emit_rule_list emit_rule emit_braced
office_prints = refl

eth0-IsIdentifier : IsIdentifier (codes "eth0")
unfolding read_run
eth0-IsIdentifier = record { is_run = refl; is_name = refl }

home-IsIdentifier : IsIdentifier (codes "::1")
unfolding read_run
home-IsIdentifier = record { is_run = refl; is_name = refl }

address-IsIdentifier : IsIdentifier (codes "10.0.0.1")
unfolding read_run
address-IsIdentifier = record { is_run = refl; is_name = refl }

mask-IsIdentifier : IsIdentifier (codes "8")
unfolding read_run
mask-IsIdentifier = record { is_run = refl; is_name = refl }

ssh-IsWord : IsWord (codes "ssh")
unfolding read_word
ssh-IsWord = record { is_run = refl; is_whole = refl; is_name = refl }

smtp-IsWord : IsWord (codes "25")
unfolding read_word
smtp-IsWord = record { is_run = refl; is_whole = refl; is_name = refl }

office-ArePrintableRules : ArePrintableRules (Ast.list office)
unfolding ArePrintableRules IsPrintableRule IsPrintable
office-ArePrintableRules = (
  tt,
  (
    (
      (
        (
          (tt, (refl, (tt, eth0-IsIdentifier))),
          (refl, (tt, (address-IsIdentifier, mask-IsIdentifier))),
        ),
        (refl, refl, (tt, (ssh-IsWord, smtp-IsWord))),
      ),
      ((tt, (refl, refl)), (tt, (refl, refl))),
    ),
    (refl, (tt, (refl, (tt, (home-IsIdentifier, tt))))),
  ),
)

emit_ast-Reads_example : AstReads (scan start (emit_ast office)) office
emit_ast-Reads_example = emit_ast-Reads office office-ArePrintableRules

-- Runs: words, ranges, addresses of six, keywords and file names.
runs_scan :
    scan start (codes "a.b:25 ::1 fe80::/10 input:log include etc/x;text")
    ≡ identifier (codes "a.b")
      ∷ token tok_colon
      ∷ identifier (codes "25")
      ∷ identifier (codes "::1")
      ∷ identifier (codes "fe80::")
      ∷ token tok_slash
      ∷ identifier (codes "10")
      ∷ token tok_input
      ∷ token tok_colon
      ∷ token tok_log
      ∷ included (codes "etc/x")
      ∷ token tok_semicolon
      ∷ token tok_text
      ∷ []
unfolding scan scan_byte
runs_scan = refl

-- Two strings on one line are one.
strings_scan :
    scan start (codes "log text \"a\" log text \"b\";\n")
    ≡ token tok_log
      ∷ token tok_text
      ∷ identifier (codes "a\" log text \"b")
      ∷ token tok_semicolon
      ∷ []
unfolding scan scan_byte
strings_scan = refl

scan-comment_example :
    scan start (codes "/* two ** stars \" */ input") ≡ scan start (codes " input")
scan-comment_example = scan-comment (codes " two ** stars \" ") (codes " input") refl
