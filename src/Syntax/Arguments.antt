-- ===== src/Syntax/Arguments.antt =====
-- The words and the argument lists that t/emit.c prints, as scanner.l and parser.y read them.
use mathlib.Core.Path.{subst}
use filtergen.Base.{
  ℕ, Bool, true, false, Option, none, some, Text, List, [], ◌∷◌, ◌++◌, codes, ◌≡◌, refl, sym, ap,
  ◌∙◌, ◌==◌, if◌then◌else◌, both_true, equal_bytes, Bool-cases, inl, inr,
}
use filtergen.Glue.Ast.{
  ArgumentList, tok_slash, no_list, arguments, TextArgument, HostArgument, PortArgument,
}
use filtergen.Syntax.Scanner.{
  Lexeme, token, identifier, Mode, start, opening, is_id_char, scan_byte, scan,
}
use filtergen.Syntax.Grammar.{
  TextArgumentReads, text_argument, HostArgumentReads, masked_host, plain_host, PortArgumentReads,
  port_range, single_port, ListReads, no_arguments, more_arguments, ArgumentsReads, braced_list,
  PortsReads, bare_ports, braced_ports,
}
use filtergen.Syntax.Printer.{
  emit_optional, emit_direction, emit_text_argument, emit_direction_argument, emit_host_argument,
  emit_port_argument, emit_arguments, emit_braced,
}
use filtergen.Syntax.Printable.{
  IsSome, IsIfAny, IsPorts, IsTextArgument, IsHostArgument, IsPortArgument, AreArguments,
  has_arguments,
}
use filtergen.Syntax.Words.{ends_word, all_id, scan-identifier, scan-range, IsIdentifier}

text_argument-Reads :
    (o : Option Text) (pos : ℕ) (k : Text)
    → IsSome IsIdentifier o
    → ends_word k ≡ true
    → TextArgumentReads
        (scan start (emit_optional [] o k))
        record { content = o; pos = pos }
        (scan start k)
text_argument-Reads none pos k ok ends = absurd ok
text_argument-Reads (some w) pos k ok ends =
    subst (λ ts. TextArgumentReads ts record { content = some w; pos = pos } (scan start k))
      (sym (scan-identifier w k ok ends)) text_argument

direction_argument-Reads :
    (o : Option Text) (pos : ℕ) (k : Text)
    → IsSome IsIdentifier o
    → ends_word k ≡ true
    → TextArgumentReads
        (scan start (emit_direction o k))
        record { content = o; pos = pos }
        (scan start k)
direction_argument-Reads none pos k ok ends = absurd ok
direction_argument-Reads (some w) pos k ok ends = text_argument-Reads (some w) pos k ok ends

id_no_star : (c : ℕ) → is_id_char c ≡ true → (c == b'*') ≡ false
id_no_star c is = elim (Bool-cases (c == b'*')) [
  | inl star ↦ cc (subst (λ d. is_id_char d ≡ true) (equal_bytes c b'*' star) is)
  | inr other ↦ other
]

-- A mask does not begin with a star, so the slash before it begins no comment.
abbrev slash : Bool → List Lexeme × Mode
slash b = if b then ([], opening) else (token tok_slash ∷ [], start)

scan-slash :
    (m k : Text)
    → IsIdentifier m
    → scan start (b'/' ∷ (m ++ k)) ≡ token tok_slash ∷ scan start (m ++ k)
unfolding scan scan_byte
scan-slash [] k ok = cc (IsIdentifier.is_run ok)
scan-slash (c ∷ m) k ok =
    let (is, _) = both_true (is_id_char c) (all_id m) (IsIdentifier.is_run ok) in
    ap (λ b. (slash b).0 ++ scan (slash b).1 (c ∷ m ++ k)) (id_no_star c is)

host_argument-Reads :
    (h m : Option Text) (pos : ℕ) (k : Text)
    → IsSome IsIdentifier h
    → IsIfAny IsIdentifier m
    → ends_word k ≡ true
    → HostArgumentReads
        (scan start (emit_optional [] h (emit_optional (codes "/") m k)))
        record { host = h; mask = m; pos = pos }
        (scan start k)
host_argument-Reads none m pos k ok mask ends = absurd ok
host_argument-Reads (some h) none pos k ok mask ends =
    subst
      (λ ts. HostArgumentReads ts record { host = some h; mask = none; pos = pos } (scan start k))
      (sym (scan-identifier h k ok ends)) plain_host
host_argument-Reads (some h) (some m) pos k ok mask ends =
    subst
      (λ ts. HostArgumentReads ts record { host = some h; mask = some m; pos = pos } (scan start k))
      (sym (
        scan-identifier h (b'/' ∷ (m ++ k)) ok refl
        ∙ ap (λ ts. identifier h ∷ ts) (scan-slash m k mask)
        ∙ ap (λ ts. identifier h ∷ token tok_slash ∷ ts) (scan-identifier m k mask ends)))
      masked_host

port_argument-Reads :
    (a b : Option Text) (pos : ℕ) (k : Text)
    → IsPorts a b
    → ends_word k ≡ true
    → PortArgumentReads
        (scan start (emit_optional [] a (emit_optional (codes ":") b k)))
        record { port_min = a; port_max = b; pos = pos }
        (scan start k)
port_argument-Reads none b pos k ok ends = absurd ok
port_argument-Reads (some v) none pos k ok ends =
    subst
      (λ ts.
        PortArgumentReads ts record { port_min = some v; port_max = none; pos = pos }
          (scan start k))
      (sym (scan-identifier v k ok ends)) single_port
port_argument-Reads (some v) (some w) pos k (is, is') ends =
    subst
      (λ ts.
        PortArgumentReads ts record { port_min = some v; port_max = some w; pos = pos }
          (scan start k))
      (sym (scan-range v w k is is' ends)) port_range

-- Lists of arguments, for any kind of them.
module _ {A : Type 0} (emit : A → Text → Text) (Item : List Lexeme → A → List Lexeme → Type 0)
    (P : A → Type 0)
    (item-Reads : (a : A) (k : Text)
      → P a
      → ends_word k ≡ true
      → Item (scan start (emit a k)) a (scan start k)) where
  arguments-Reads :
      (l : ArgumentList A) (k : Text)
      → AreArguments P l
      → ends_word k ≡ true
      → ListReads Item (scan start (emit_arguments emit l k)) l (scan start k)
  unfolding emit_arguments scan scan_byte
  arguments-Reads no_list k ok ends = no_arguments
  arguments-Reads (arguments l none pos) k (ok, empty) ends = absurd empty
  arguments-Reads (arguments no_list (some a) pos) k (ok, is) ends =
      more_arguments no_arguments (item-Reads a k is ends)
  arguments-Reads (arguments (arguments l b pos') (some a) pos) k (ok, is) ends =
      more_arguments (arguments-Reads (arguments l b pos') (b' ' ∷ emit a k) ok refl)
        (item-Reads a k is ends)

  braced_arguments-Reads :
      (l : ArgumentList A) (k : Text)
      → AreArguments P l
      → ArgumentsReads Item (scan start (emit_braced emit l k)) l (scan start k)
  unfolding scan scan_byte emit_braced
  braced_arguments-Reads l k ok = braced_list (arguments-Reads l (codes " }" ++ k) ok refl)

pub texts-Reads :
    (l : ArgumentList TextArgument) (k : Text)
    → AreArguments IsTextArgument l
    → ArgumentsReads TextArgumentReads
        (scan start (emit_braced emit_text_argument l k))
        l
        (scan start k)
texts-Reads =
    braced_arguments-Reads emit_text_argument TextArgumentReads IsTextArgument
      (λ a. text_argument-Reads (TextArgument.content a) (TextArgument.pos a))

pub directions-Reads :
    (l : ArgumentList TextArgument) (k : Text)
    → AreArguments IsTextArgument l
    → ArgumentsReads TextArgumentReads
        (scan start (emit_braced emit_direction_argument l k))
        l
        (scan start k)
directions-Reads =
    braced_arguments-Reads emit_direction_argument TextArgumentReads IsTextArgument
      (λ a. direction_argument-Reads (TextArgument.content a) (TextArgument.pos a))

pub hosts-Reads :
    (l : ArgumentList HostArgument) (k : Text)
    → AreArguments IsHostArgument l
    → ArgumentsReads HostArgumentReads
        (scan start (emit_braced emit_host_argument l k))
        l
        (scan start k)
hosts-Reads = braced_arguments-Reads emit_host_argument HostArgumentReads IsHostArgument (λ a k ok.
    host_argument-Reads (HostArgument.host a) (HostArgument.mask a) (HostArgument.pos a) k ok.0
      ok.1)

pub ports-Reads :
    (l : ArgumentList PortArgument) (k : Text)
    → has_arguments l ≡ true
    → AreArguments IsPortArgument l
    → PortsReads (scan start (emit_braced emit_port_argument l k)) l (scan start k)
unfolding scan scan_byte emit_braced
ports-Reads no_list k some_port ok = cc
ports-Reads (arguments l a pos) k some_port ok = braced_ports (
    bare_ports (
      arguments-Reads emit_port_argument PortArgumentReads IsPortArgument
        (λ a.
          port_argument-Reads (PortArgument.port_min a) (PortArgument.port_max a)
            (PortArgument.pos a))
        (arguments l a pos) (codes " }" ++ k) ok refl))
