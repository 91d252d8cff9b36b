-- ===== src/Syntax/Printable.antt =====
-- The trees that t/emit.c prints as text of the language: their strings are identifiers, and what it
-- prints as `error`, or as a star in braces, does not stand in them. A message of `log` is left out,
-- since the scanner reads a string to the last quote of the line.
use filtergen.Base.{Bool, true, false, Option, none, some, Text, ◌≡◌}
use filtergen.Glue.Ast.{
  Token, tok_proxy, ArgumentList, no_list, arguments, TextArgument, HostArgument, PortArgument,
  Specifier, compound, direction, target, host, protocol, port, icmptype, option, chaingroup,
  nothing, NegatedSpecifier, no_specifier, specifier, SpecifierList, no_specifiers, specifiers,
  SubruleList, no_subrules, subrules, Rule, no_rule, rule, RuleList, no_rules, rules,
}
use filtergen.Syntax.Grammar.{is_target_token, is_plain_option, is_direction, is_end, is_port}
use filtergen.Syntax.Words.{IsWord, IsIdentifier, is_text}

abbrev pub IsSome : {A : Type 0} → (A → Type 0) → Option A → Type 0
IsSome P none = ⊥
IsSome P (some a) = P a

abbrev pub IsIfAny : {A : Type 0} → (A → Type 0) → Option A → Type 0
IsIfAny P none = Unit {0}
IsIfAny P (some a) = P a

abbrev pub IsTextArgument : TextArgument → Type 0
IsTextArgument a = IsSome IsIdentifier (TextArgument.content a)

abbrev pub IsHostArgument : HostArgument → Type 0
IsHostArgument a =
    IsSome IsIdentifier (HostArgument.host a) × IsIfAny IsIdentifier (HostArgument.mask a)

-- The two ends of a range are words; a port alone may have several colons.
abbrev pub IsPorts : Option Text → Option Text → Type 0
IsPorts none upper = ⊥
IsPorts (some v) none = IsIdentifier v
IsPorts (some v) (some w) = IsWord v × IsWord w

abbrev pub IsPortArgument : PortArgument → Type 0
IsPortArgument a = IsPorts (PortArgument.port_min a) (PortArgument.port_max a)

abbrev pub AreArguments : {A : Type 0} → (A → Type 0) → ArgumentList A → Type 0
AreArguments P no_list = Unit {0}
AreArguments P (arguments l a pos) = AreArguments P l × IsSome P a

abbrev pub has_arguments : {A : Type 0} → ArgumentList A → Bool
has_arguments no_list = false
has_arguments (arguments l a pos) = true

abbrev pub is_proxy : Token → Bool
is_proxy tok_proxy = true
is_proxy _ = false

abbrev pub IsName : Option Text → Type 0
IsName = IsIfAny (λ s. is_text s ≡ true)

unfoldable mutual
  pub IsPrintable : Specifier → Type 0
  IsPrintable (compound l pos pos') = ArePrintableSubrules l
  IsPrintable (direction type l pos pos') =
      (is_direction type ≡ true) × AreArguments IsTextArgument l
  IsPrintable (target type pos) = (is_target_token type ≡ true) × (is_proxy type ≡ false)
  IsPrintable (host type l pos pos') = (is_end type ≡ true) × AreArguments IsHostArgument l
  IsPrintable (protocol l pos pos') = AreArguments IsTextArgument l
  IsPrintable (port type l pos pos') =
      (is_port type ≡ true) × (has_arguments l ≡ true) × AreArguments IsPortArgument l
  IsPrintable (icmptype l pos pos') = AreArguments IsTextArgument l
  IsPrintable (option type message pos pos') = (is_plain_option type ≡ true) × (message ≡ none)
  IsPrintable (chaingroup name l pos pos') = IsName name × ArePrintableSubrules l
  IsPrintable (nothing pos) = ⊥

  pub IsPrintableNegated : NegatedSpecifier → Type 0
  IsPrintableNegated no_specifier = ⊥
  IsPrintableNegated (specifier negated s pos) = IsPrintable s

  pub ArePrintable : SpecifierList → Type 0
  ArePrintable no_specifiers = Unit {0}
  ArePrintable (specifiers l n pos) = ArePrintable l × IsPrintableNegated n

  -- There is at least one.
  pub ArePrintableSubrules : SubruleList → Type 0
  ArePrintableSubrules no_subrules = ⊥
  ArePrintableSubrules (subrules no_subrules s pos) = ArePrintable s
  ArePrintableSubrules (subrules (subrules l t pos) s pos') =
      ArePrintableSubrules (subrules l t pos) × ArePrintable s

unfoldable pub IsPrintableRule : Rule → Type 0
unfolding ArePrintable
IsPrintableRule no_rule = ⊥
IsPrintableRule (rule l pos) = ArePrintable l

unfoldable pub ArePrintableRules : RuleList → Type 0
unfolding ArePrintable
ArePrintableRules no_rules = Unit {0}
ArePrintableRules (rules l r pos) = ArePrintableRules l × IsPrintableRule r
