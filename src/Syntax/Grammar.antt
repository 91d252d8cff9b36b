-- ===== src/Syntax/Grammar.antt =====
-- input/filtergen/parser.y: the productions, each with the tree it builds, as relations between the
-- lexemes before, the tree, and the lexemes left. The positions in a tree are any numbers. Where a
-- list of arguments and a compound could both start, bison shifts the brace: a list without
-- braces that has no argument does not stand before one.
use filtergen.Base.{ℕ, Bool, true, false, Option, none, some, Text, List, [], ◌∷◌, ◌≡◌, codes}
use filtergen.Glue.Ast.{
  Token, tok_accept, tok_dest, tok_dport, tok_drop, tok_forward, tok_icmptype, tok_input, tok_local,
  tok_log, tok_masq, tok_oneway, tok_output, tok_proto, tok_proxy, tok_redirect, tok_reject,
  tok_source, tok_sport, tok_text, tok_lcurly, tok_rcurly, tok_lsquare, tok_rsquare, tok_semicolon,
  tok_colon, tok_bang, tok_star, tok_slash, ArgumentList, no_list, arguments, TextArgument,
  HostArgument, PortArgument, Specifier, compound, direction, target, host, protocol, port,
  icmptype, option, chaingroup, NegatedSpecifier, specifier, SpecifierList, no_specifiers,
  specifiers, SubruleList, no_subrules, subrules, rule, RuleList, no_rules, rules, Ast,
}
use filtergen.Syntax.Scanner.{Lexeme, token, identifier}

abbrev pub starts_lcurly : List Lexeme → Bool
starts_lcurly (token tok_lcurly ∷ ts) = true
starts_lcurly _ = false

-- One argument of each kind.
pub data TextArgumentReads : List Lexeme → TextArgument → List Lexeme → Type 0 where
  text_argument :
      {w : Text} {pos : ℕ} {k : List Lexeme}
      → TextArgumentReads (identifier w ∷ k) record { content = some w; pos = pos } k

pub data HostArgumentReads : List Lexeme → HostArgument → List Lexeme → Type 0 where
  masked_host :
      {h m : Text} {pos : ℕ} {k : List Lexeme}
      → HostArgumentReads
          (identifier h ∷ token tok_slash ∷ identifier m ∷ k)
          record { host = some h; mask = some m; pos = pos }
          k
  plain_host :
      {h : Text} {pos : ℕ} {k : List Lexeme}
      → HostArgumentReads (identifier h ∷ k) record { host = some h; mask = none; pos = pos } k

pub data PortArgumentReads : List Lexeme → PortArgument → List Lexeme → Type 0 where
  port_range :
      {a b : Text} {pos : ℕ} {k : List Lexeme}
      → PortArgumentReads
          (identifier a ∷ token tok_colon ∷ identifier b ∷ k)
          record { port_min = some a; port_max = some b; pos = pos }
          k
  single_port :
      {a : Text} {pos : ℕ} {k : List Lexeme}
      → PortArgumentReads
          (identifier a ∷ k)
          record { port_min = some a; port_max = none; pos = pos }
          k

-- A list of arguments without its braces: empty, or one more at its end.
pub data ListReads {A : Type 0} (Item : List Lexeme → A → List Lexeme → Type 0)
    : List Lexeme → ArgumentList A → List Lexeme → Type 0 where
  no_arguments : {k : List Lexeme} → ListReads Item k no_list k
  more_arguments :
      {ts mid k : List Lexeme} {l : ArgumentList A} {a : A} {pos : ℕ}
      → ListReads Item ts l mid
      → Item mid a k
      → ListReads Item ts (arguments l (some a) pos) k

-- Lists that may be empty, with and without braces.
pub data ArgumentsReads {A : Type 0} (Item : List Lexeme → A → List Lexeme → Type 0)
    : List Lexeme → ArgumentList A → List Lexeme → Type 0 where
  bare_list :
      {ts k : List Lexeme} {l : ArgumentList A}
      → starts_lcurly ts ≡ false
      → ListReads Item ts l k
      → ArgumentsReads Item ts l k
  braced_list :
      {ts k : List Lexeme} {l : ArgumentList A}
      → ListReads Item ts l (token tok_rcurly ∷ k)
      → ArgumentsReads Item (token tok_lcurly ∷ ts) l k

-- Ports: at least one, in any number of braces.
pub data PortsReads : List Lexeme → ArgumentList PortArgument → List Lexeme → Type 0 where
  bare_ports :
      {ts k : List Lexeme} {l : ArgumentList PortArgument} {a : Option PortArgument} {pos : ℕ}
      → ListReads PortArgumentReads ts (arguments l a pos) k
      → PortsReads ts (arguments l a pos) k
  braced_ports :
      {ts k : List Lexeme} {l : ArgumentList PortArgument}
      → PortsReads ts l (token tok_rcurly ∷ k)
      → PortsReads (token tok_lcurly ∷ ts) l k

-- The directions also have a star for any interface.
pub data DirectionsReads : List Lexeme → ArgumentList TextArgument → List Lexeme → Type 0 where
  named_directions :
      {ts k : List Lexeme} {l : ArgumentList TextArgument}
      → ArgumentsReads TextArgumentReads ts l k
      → DirectionsReads ts l k
  any_direction :
      {pos pos' : ℕ} {k : List Lexeme}
      → DirectionsReads
          (token tok_star ∷ k)
          (arguments no_list (some record { content = some (codes "*"); pos = pos }) pos')
          k

-- The tokens that are specifiers by themselves, and those before a list.
abbrev pub is_target_token : Token → Bool
is_target_token tok_accept = true
is_target_token tok_reject = true
is_target_token tok_drop = true
is_target_token tok_masq = true
is_target_token tok_proxy = true
is_target_token tok_redirect = true
is_target_token _ = false

abbrev pub is_plain_option : Token → Bool
is_plain_option tok_local = true
is_plain_option tok_forward = true
is_plain_option tok_oneway = true
is_plain_option tok_log = true
is_plain_option _ = false

abbrev pub is_direction : Token → Bool
is_direction tok_input = true
is_direction tok_output = true
is_direction _ = false

abbrev pub is_end : Token → Bool
is_end tok_source = true
is_end tok_dest = true
is_end _ = false

abbrev pub is_port : Token → Bool
is_port tok_sport = true
is_port tok_dport = true
is_port _ = false

mutual
  pub data SpecifierReads : List Lexeme → Specifier → List Lexeme → Type 0 where
    read_compound :
        {ts k : List Lexeme} {l : SubruleList} {pos pos' : ℕ}
        → SubrulesReads ts l (token tok_rcurly ∷ k)
        → SpecifierReads (token tok_lcurly ∷ ts) (compound l pos pos') k
    read_direction :
        {ts k : List Lexeme} {type : Token} {l : ArgumentList TextArgument} {pos pos' : ℕ}
        → is_direction type ≡ true
        → DirectionsReads ts l k
        → SpecifierReads (token type ∷ ts) (direction type l pos pos') k
    read_target :
        {k : List Lexeme} {type : Token} {pos : ℕ}
        → is_target_token type ≡ true
        → SpecifierReads (token type ∷ k) (target type pos) k
    read_host :
        {ts k : List Lexeme} {type : Token} {l : ArgumentList HostArgument} {pos pos' : ℕ}
        → is_end type ≡ true
        → ArgumentsReads HostArgumentReads ts l k
        → SpecifierReads (token type ∷ ts) (host type l pos pos') k
    read_port :
        {ts k : List Lexeme} {type : Token} {l : ArgumentList PortArgument} {pos pos' : ℕ}
        → is_port type ≡ true
        → PortsReads ts l k
        → SpecifierReads (token type ∷ ts) (port type l pos pos') k
    read_protocol :
        {ts k : List Lexeme} {l : ArgumentList TextArgument} {pos pos' : ℕ}
        → ArgumentsReads TextArgumentReads ts l k
        → SpecifierReads (token tok_proto ∷ ts) (protocol l pos pos') k
    read_icmptype :
        {ts k : List Lexeme} {l : ArgumentList TextArgument} {pos pos' : ℕ}
        → ArgumentsReads TextArgumentReads ts l k
        → SpecifierReads (token tok_icmptype ∷ ts) (icmptype l pos pos') k
    read_bare_option :
        {k : List Lexeme} {type : Token} {pos pos' : ℕ}
        → is_plain_option type ≡ true
        → SpecifierReads (token type ∷ k) (option type none pos pos') k
    read_log :
        {k : List Lexeme} {m : Text} {pos pos' : ℕ}
        → SpecifierReads
            (token tok_log ∷ token tok_text ∷ identifier m ∷ k)
            (option tok_log (some m) pos pos')
            k
    read_group :
        {ts k : List Lexeme} {l : SubruleList} {pos pos' : ℕ}
        → SubrulesReads ts l (token tok_rsquare ∷ k)
        → SpecifierReads (token tok_lsquare ∷ ts) (chaingroup none l pos pos') k
    read_named_group :
        {ts k : List Lexeme} {name : Text} {l : SubruleList} {pos pos' : ℕ}
        → SubrulesReads ts l (token tok_rsquare ∷ k)
        → SpecifierReads
            (token tok_lsquare ∷ identifier name ∷ ts)
            (chaingroup (some name) l pos pos')
            k

  pub data NegatedReads : List Lexeme → NegatedSpecifier → List Lexeme → Type 0 where
    read_plain :
        {ts k : List Lexeme} {s : Specifier} {pos : ℕ}
        → SpecifierReads ts s k
        → NegatedReads ts (specifier false s pos) k
    read_negated :
        {ts k : List Lexeme} {s : Specifier} {pos : ℕ}
        → SpecifierReads ts s k
        → NegatedReads (token tok_bang ∷ ts) (specifier true s pos) k

  pub data SpecifiersReads : List Lexeme → SpecifierList → List Lexeme → Type 0 where
    end_specifiers : {k : List Lexeme} → SpecifiersReads k no_specifiers k
    more_specifiers :
        {ts mid k : List Lexeme} {l : SpecifierList} {n : NegatedSpecifier} {pos : ℕ}
        → SpecifiersReads ts l mid
        → NegatedReads mid n k
        → SpecifiersReads ts (specifiers l n pos) k

  pub data SubrulesReads : List Lexeme → SubruleList → List Lexeme → Type 0 where
    first_subrule :
        {ts k : List Lexeme} {s : SpecifierList} {pos : ℕ}
        → SpecifiersReads ts s k
        → SubrulesReads ts (subrules no_subrules s pos) k
    more_subrules :
        {ts mid k : List Lexeme} {l : SubruleList} {s : SpecifierList} {pos : ℕ}
        → SubrulesReads ts l (token tok_semicolon ∷ mid)
        → SpecifiersReads mid s k
        → SubrulesReads ts (subrules l s pos) k

pub data RulesReads : List Lexeme → RuleList → List Lexeme → Type 0 where
  end_rules : {k : List Lexeme} → RulesReads k no_rules k
  more_rules :
      {ts mid k : List Lexeme} {l : RuleList} {s : SpecifierList} {pos pos' : ℕ}
      → RulesReads ts l mid
      → SpecifiersReads mid s (token tok_semicolon ∷ k)
      → RulesReads ts (rules l (rule s pos) pos') k

-- A whole file.
pub data AstReads : List Lexeme → Ast → Type 0 where
  read_ast :
      {ts : List Lexeme} {l : RuleList} {pos : ℕ}
      → RulesReads ts l []
      → AstReads ts record { list = l; pos = pos }
