-- ===== src/Glue/Ast.antt =====
-- input/filtergen/ast.h: what the parser builds. A pointer to a list is null for an empty list, and
-- a list holds what stands before its last element, and that element.
use filtergen.Base.{ℕ, Bool, Option, Text}

-- The tokens of parser.y, but for identifiers; some are the `type` of a specifier.
pub data Token : Type 0 where
  tok_input tok_output tok_source tok_dest tok_sport tok_dport : Token
  tok_accept tok_reject tok_drop tok_masq tok_proxy tok_redirect : Token
  tok_local tok_forward tok_oneway tok_log : Token
  tok_unexpected tok_icmptype tok_lcurly tok_lsquare tok_proto tok_rcurly tok_rsquare : Token
  tok_semicolon tok_text tok_slash tok_bang tok_colon tok_star tok_dot : Token
  tok_other : ℕ → Token

-- The five kinds of argument lists: `list`, `arg` and `pos`.
pub data ArgumentList (A : Type 0) : Type 0 where
  no_list : ArgumentList A
  arguments : ArgumentList A → Option A → ℕ → ArgumentList A

pub record TextArgument : Type 0 where
  pub content : Option Text
  pub pos : ℕ

pub record HostArgument : Type 0 where
  pub host : Option Text
  pub mask : Option Text
  pub pos : ℕ

pub record PortArgument : Type 0 where
  pub port_min : Option Text
  pub port_max : Option Text
  pub pos : ℕ

-- `struct specifier_s` is one of nine pointers with its position: a constructor for each, in the
-- order in which they are tested, and one for none of them. The position of what is pointed at
-- comes before that of the specifier.
mutual
  pub data Specifier : Type 0 where
    compound : SubruleList → ℕ → ℕ → Specifier
    direction : Token → ArgumentList TextArgument → ℕ → ℕ → Specifier
    target : Token → ℕ → Specifier
    host : Token → ArgumentList HostArgument → ℕ → ℕ → Specifier
    protocol : ArgumentList TextArgument → ℕ → ℕ → Specifier
    port : Token → ArgumentList PortArgument → ℕ → ℕ → Specifier
    icmptype : ArgumentList TextArgument → ℕ → ℕ → Specifier
    option : Token → Option Text → ℕ → ℕ → Specifier
    chaingroup : Option Text → SubruleList → ℕ → ℕ → Specifier
    nothing : ℕ → Specifier

  pub data NegatedSpecifier : Type 0 where
    no_specifier : NegatedSpecifier
    specifier : Bool → Specifier → ℕ → NegatedSpecifier

  pub data SpecifierList : Type 0 where
    no_specifiers : SpecifierList
    specifiers : SpecifierList → NegatedSpecifier → ℕ → SpecifierList

  pub data SubruleList : Type 0 where
    no_subrules : SubruleList
    subrules : SubruleList → SpecifierList → ℕ → SubruleList

-- `struct rule_s` and `struct rule_list_s`.
pub data Rule : Type 0 where
  no_rule : Rule
  rule : SpecifierList → ℕ → Rule

pub data RuleList : Type 0 where
  no_rules : RuleList
  rules : RuleList → Rule → ℕ → RuleList

pub record Ast : Type 0 where
  pub list : RuleList
  pub pos : ℕ
