-- ===== src/Syntax/Printer.antt =====
-- input/filtergen/t/emit.c: a syntax tree as text. Each function takes what is printed behind its
-- own text. What the parser never builds, an element without a specifier, a rule or an argument,
-- prints nothing here; the C code follows a null pointer there.
use filtergen.Base.{Bool, true, false, Option, none, some, Text, [], ◌∷◌, ◌++◌, codes}
use filtergen.Glue.Ast.{
  Token, tok_accept, tok_dest, tok_dport, tok_drop, tok_forward, tok_input, tok_local, tok_log,
  tok_masq, tok_oneway, tok_redirect, tok_reject, tok_source, tok_sport, ArgumentList, no_list,
  arguments, TextArgument, HostArgument, PortArgument, Specifier, compound, direction, target, host,
  protocol, port, icmptype, option, chaingroup, nothing, NegatedSpecifier, no_specifier, specifier,
  SpecifierList, no_specifiers, specifiers, SubruleList, no_subrules, subrules, Rule, no_rule, rule,
  RuleList, no_rules, rules, Ast,
}

-- A string that may be a null pointer, behind a prefix.
abbrev pub emit_optional : Text → Option Text → Text → Text
emit_optional prefix none k = k
emit_optional prefix (some s) k = prefix ++ (s ++ k)

abbrev pub emit_text_argument : TextArgument → Text → Text
emit_text_argument a = emit_optional [] (TextArgument.content a)

abbrev pub emit_direction : Option Text → Text → Text
emit_direction none k = codes "error: n->direction is NULL\n" ++ k
emit_direction (some s) k = s ++ k

abbrev pub emit_direction_argument : TextArgument → Text → Text
emit_direction_argument a = emit_direction (TextArgument.content a)

abbrev pub emit_port_argument : PortArgument → Text → Text
emit_port_argument a k =
    emit_optional [] (PortArgument.port_min a)
      (emit_optional (codes ":") (PortArgument.port_max a) k)

abbrev pub emit_host_argument : HostArgument → Text → Text
emit_host_argument a k =
    emit_optional [] (HostArgument.host a) (emit_optional (codes "/") (HostArgument.mask a) k)

-- Arguments are separated by spaces.
abbrev pub argument_gap : {A : Type 0} → ArgumentList A → Text → Text
argument_gap no_list k = k
argument_gap (arguments l a pos) k = b' ' ∷ k

abbrev pub emit_argument : {A : Type 0} → (A → Text → Text) → Option A → Text → Text
emit_argument emit none k = k
emit_argument emit (some a) k = emit a k

unfoldable pub emit_arguments : {A : Type 0} → (A → Text → Text) → ArgumentList A → Text → Text
emit_arguments emit no_list k = k
emit_arguments emit (arguments l a pos) k =
    emit_arguments emit l (argument_gap l (emit_argument emit a k))

-- The argument lists are printed in braces.
unfoldable pub emit_braced : {A : Type 0} → (A → Text → Text) → ArgumentList A → Text → Text
unfolding emit_arguments
emit_braced emit l k = codes "{ " ++ emit_arguments emit l (codes " }" ++ k)

abbrev pub emit_direction_type : Token → Text
emit_direction_type tok_input = codes "input "
emit_direction_type _ = codes "output "

abbrev pub emit_host_type : Token → Text
emit_host_type tok_source = codes "source "
emit_host_type tok_dest = codes "dest "
emit_host_type _ = []

abbrev pub emit_port_type : Token → Text
emit_port_type tok_dport = codes "dport "
emit_port_type tok_sport = codes "sport "
emit_port_type _ = []

abbrev pub emit_target_specifier : Token → Text
emit_target_specifier tok_accept = codes "accept"
emit_target_specifier tok_reject = codes "reject"
emit_target_specifier tok_drop = codes "drop"
emit_target_specifier tok_redirect = codes "redirect"
emit_target_specifier tok_masq = codes "masq"
emit_target_specifier _ = codes "error"

abbrev pub emit_log : Option Text → Text → Text
emit_log none k = codes "log" ++ k
emit_log (some m) k = codes "log text \"" ++ (m ++ b'"' ∷ k)

abbrev pub emit_option_specifier : Token → Option Text → Text → Text
emit_option_specifier tok_local m k = codes "local" ++ k
emit_option_specifier tok_forward m k = codes "forward" ++ k
emit_option_specifier tok_oneway m k = codes "oneway" ++ k
emit_option_specifier tok_log m k = emit_log m k
emit_option_specifier _ m k = codes "error" ++ k

abbrev pub emit_name : Option Text → Text → Text
emit_name none k = b'\n' ∷ k
emit_name (some s) k = codes " \"" ++ (s ++ b'"' ∷ b'\n' ∷ k)

abbrev pub emit_negated : Bool → Text → Text
emit_negated true k = codes "! " ++ k
emit_negated false k = k

-- Specifiers are separated by spaces, the parts of a group by a semicolon and the end of the line.
abbrev pub specifier_gap : SpecifierList → Text → Text
specifier_gap no_specifiers k = k
specifier_gap (specifiers l n pos) k = b' ' ∷ k

abbrev pub subrule_gap : SubruleList → Text → Text
subrule_gap no_subrules k = k
subrule_gap (subrules l s pos) k = b';' ∷ b'\n' ∷ k

unfoldable mutual
  pub emit_specifier : Specifier → Text → Text
  emit_specifier (compound l pos pos') k = b'{' ∷ emit_subrule_list l (b'}' ∷ k)
  emit_specifier (direction type l pos pos') k =
      emit_direction_type type ++ emit_braced emit_direction_argument l k
  emit_specifier (target type pos) k = emit_target_specifier type ++ k
  emit_specifier (host type l pos pos') k =
      emit_host_type type ++ emit_braced emit_host_argument l k
  emit_specifier (protocol l pos pos') k = codes "proto " ++ emit_braced emit_text_argument l k
  emit_specifier (port type l pos pos') k =
      emit_port_type type ++ emit_braced emit_port_argument l k
  emit_specifier (icmptype l pos pos') k = codes "icmptype " ++ emit_braced emit_text_argument l k
  emit_specifier (option type m pos pos') k = emit_option_specifier type m k
  emit_specifier (chaingroup name l pos pos') k =
      b'[' ∷ emit_name name (emit_subrule_list l (b']' ∷ k))
  emit_specifier (nothing pos) k = k

  pub emit_negated_specifier : NegatedSpecifier → Text → Text
  emit_negated_specifier no_specifier k = k
  emit_negated_specifier (specifier negated s pos) k = emit_negated negated (emit_specifier s k)

  pub emit_specifier_list : SpecifierList → Text → Text
  emit_specifier_list no_specifiers k = k
  emit_specifier_list (specifiers l n pos) k =
      emit_specifier_list l (specifier_gap l (emit_negated_specifier n k))

  pub emit_subrule_list : SubruleList → Text → Text
  emit_subrule_list no_subrules k = k
  emit_subrule_list (subrules l s pos) k =
      emit_subrule_list l (subrule_gap l (emit_specifier_list s k))

unfoldable pub emit_rule : Rule → Text → Text
unfolding emit_specifier_list
emit_rule no_rule k = k
emit_rule (rule l pos) k = emit_specifier_list l (b';' ∷ b'\n' ∷ k)

unfoldable pub emit_rule_list : RuleList → Text → Text
unfolding emit_specifier_list
emit_rule_list no_rules k = k
emit_rule_list (rules l r pos) k = emit_rule_list l (emit_rule r k)

unfoldable pub emit_ast : Ast → Text
unfolding emit_rule_list
emit_ast a = emit_rule_list (Ast.list a) []
