-- ===== src/Syntax/Scanner.antt =====
-- input/filtergen/scanner.l: from bytes to tokens. Positions and messages are not modelled, and the
-- tokens of an included file stand as one lexeme with the file's name.
use filtergen.Base.{
  ℕ, zero, suc, Bool, true, false, ◌&&◌, ◌||◌, Option, none, some, Text, List, [], ◌∷◌, ◌++◌, codes,
  length, leb, ◌==◌, text_eq, if◌then◌else◌,
}
use filtergen.Glue.Ast.{
  Token, tok_accept, tok_dest, tok_dport, tok_drop, tok_forward, tok_icmptype, tok_input, tok_local,
  tok_log, tok_masq, tok_oneway, tok_output, tok_proto, tok_proxy, tok_redirect, tok_reject,
  tok_source, tok_sport, tok_text, tok_lcurly, tok_rcurly, tok_lsquare, tok_rsquare, tok_semicolon,
  tok_colon, tok_bang, tok_star, tok_slash, tok_unexpected,
}

-- A token; the identifiers carry `u_str`. The last is a call of `include_file`.
pub data Lexeme : Type 0 where
  token : Token → Lexeme
  identifier : Text → Lexeme
  included : Text → Lexeme

-- `[[:alnum:]._+-]`.
abbrev pub is_word_char : ℕ → Bool
is_word_char c =
    (leb b'0' c && leb c b'9')
    || (leb b'A' c && leb c b'Z')
    || (leb b'a' c && leb c b'z')
    || c == b'.'
    || c == b'_'
    || c == b'+'
    || c == b'-'

-- What `{id}(\.{id})*` can be made of.
abbrev pub is_id_char : ℕ → Bool
is_id_char c = is_word_char c || c == b':'

-- The patterns of whole words, in the order of the file.
abbrev pub first_match : Text → List (Text × Token) → Option Token
first_match w [] = none
first_match w ((k, t) ∷ ks) = if text_eq w k then some t else first_match w ks

abbrev pub keywords : List (Text × Token)
keywords =
    (codes "accept", tok_accept)
    ∷ (codes "dest", tok_dest)
    ∷ (codes "dport", tok_dport)
    ∷ (codes "drop", tok_drop)
    ∷ (codes "forward", tok_forward)
    ∷ (codes "icmptype", tok_icmptype)
    ∷ (codes "input", tok_input)
    ∷ (codes "local", tok_local)
    ∷ (codes "log", tok_log)
    ∷ (codes "masq", tok_masq)
    ∷ (codes "oneway", tok_oneway)
    ∷ (codes "output", tok_output)
    ∷ (codes "proto", tok_proto)
    ∷ (codes "proxy", tok_proxy)
    ∷ (codes "redirect", tok_redirect)
    ∷ (codes "reject", tok_reject)
    ∷ (codes "source", tok_source)
    ∷ (codes "sport", tok_sport)
    ∷ (codes "text", tok_text)
    ∷ []

abbrev pub word_lexeme : Text → Option Token → Lexeme
word_lexeme w none = identifier w
word_lexeme w (some t) = token t

-- Where the scanner is: between tokens, in a run of the bytes of identifiers, in what a string has
-- matched already, in a comment to the end of the line, in a comment with or without stars before,
-- behind `include`, and in the name of a file.
pub data Mode : Type 0 where
  start line_comment opening comment comment_star include_space : Mode
  in_run include_name : Text → Mode
  skip : ℕ → Mode

-- One word, found whole.
unfoldable pub read_word : Text → List Lexeme × Mode
unfolding text_eq
read_word w =
    if text_eq w (codes "include")
    then ([], include_space)
    else (word_lexeme w (first_match w keywords) ∷ [], start)

-- The run, up to its first colon, and behind it if there is one.
abbrev pub add_front : ℕ → Text × Option Text → Text × Option Text
add_front c (w, r) = (c ∷ w, r)

unfoldable pub cut_colon : Text → Text × Option Text
cut_colon [] = ([], none)
cut_colon (c ∷ s) = let rest = cut_colon s in if c == b':' then ([], some s) else add_front c rest

abbrev pub optional_word : Text → List Lexeme × Mode
optional_word [] = ([], start)
optional_word (c ∷ w) = read_word (c ∷ w)

-- The word before a single colon, the colon, and what stands behind. Behind `include` all of it is a
-- file's name.
abbrev pub behind_colon : List Lexeme × Mode → Text → List Lexeme × Mode
behind_colon (ts, include_space) w = (ts, include_name (b':' ∷ w))
behind_colon (ts, m) w = let (us, m') = optional_word w in (ts ++ token tok_colon ∷ us, m')

-- The longest match in a run: all of it without a colon, or with two and more.
abbrev pub read_cut : Text → Text → Option Text → List Lexeme × Mode
read_cut run w none = read_word run
read_cut run w (some behind) =
    if is_cut (cut_colon behind).1
    then (identifier run ∷ [], start)
    else behind_colon (optional_word w) behind
  where
    is_cut : Option Text → Bool
    is_cut none = false
    is_cut (some _) = true

unfoldable pub read_run : Text → List Lexeme × Mode
unfolding read_word cut_colon
read_run run = let (w, behind) = cut_colon run in read_cut run w behind

-- `\"[^\n]+\"`: what stands between the quote before and the last quote of the line.
abbrev pub longer : ℕ → Option Text → Option Text
longer c none = if c == b'"' then some [] else none
longer c (some s) = some (c ∷ s)

unfoldable pub to_last_quote : Text → Option Text
to_last_quote [] = none
to_last_quote (c ∷ s) = let rest = to_last_quote s in if c == b'\n' then none else longer c rest

-- Something has to stand between the quotes.
abbrev pub read_string : Option Text → List Lexeme × Mode
read_string (some (c ∷ s)) = (identifier (c ∷ s) ∷ [], skip (suc (length (c ∷ s))))
read_string _ = (token tok_unexpected ∷ [], start)

abbrev pub starts_star : Text → Bool
starts_star [] = false
starts_star (c ∷ s) = c == b'*'

-- A byte between tokens, with what stands behind it. No two patterns start with the same byte, but
-- for the comments and the slash.
unfoldable pub step_start : ℕ → Text → List Lexeme × Mode
unfolding to_last_quote
step_start c rest =
    if is_id_char c
    then ([], in_run (c ∷ []))
    else if c == b'\n' || c == b'\r' || c == b' ' || c == b'\t'
    then ([], start)
    else if c == b'/' && starts_star rest
    then ([], opening)
    else if c == b'#'
    then ([], line_comment)
    else if c == b'"'
    then read_string (to_last_quote rest)
    else if c == b'{'
    then (token tok_lcurly ∷ [], start)
    else if c == b'}'
    then (token tok_rcurly ∷ [], start)
    else if c == b'['
    then (token tok_lsquare ∷ [], start)
    else if c == b']'
    then (token tok_rsquare ∷ [], start)
    else if c == b';'
    then (token tok_semicolon ∷ [], start)
    else if c == b'!'
    then (token tok_bang ∷ [], start)
    else if c == b'*'
    then (token tok_star ∷ [], start)
    else if c == b'/'
    then (token tok_slash ∷ [], start)
    else (token tok_unexpected ∷ [], start)

-- Behind `include`: a byte that no pattern takes is copied to the standard output.
abbrev pub ends_name : ℕ → Bool
ends_name c = c == b' ' || c == b'\t' || c == b'\n' || c == b';'

abbrev pub step_include : ℕ → List Lexeme × Mode
step_include c = if ends_name c then ([], include_space) else ([], include_name (c ∷ []))

abbrev pub step_name : Text → ℕ → Text → List Lexeme × Mode
step_name name c rest =
    if ends_name c
    then (let (ts, m) = step_start c rest in (included name ∷ ts, m))
    else ([], include_name (name ++ c ∷ []))

-- A byte that does not belong to the run before it.
abbrev pub step_behind : List Lexeme × Mode → ℕ → Text → List Lexeme × Mode
step_behind (ts, include_space) c rest = let (us, m) = step_include c in (ts ++ us, m)
step_behind (ts, include_name name) c rest = let (us, m) = step_name name c rest in (ts ++ us, m)
step_behind (ts, _) c rest = let (us, m) = step_start c rest in (ts ++ us, m)

unfoldable pub scan_byte : Mode → ℕ → Text → List Lexeme × Mode
unfolding step_start read_run
scan_byte start c rest = step_start c rest
scan_byte (in_run run) c rest =
    if is_id_char c then ([], in_run (run ++ c ∷ [])) else step_behind (read_run run) c rest
scan_byte (skip zero) c rest = step_start c rest
scan_byte (skip (suc zero)) c rest = ([], start)
scan_byte (skip (suc (suc n))) c rest = ([], skip (suc n))
scan_byte line_comment c rest = if c == b'\n' then ([], start) else ([], line_comment)
scan_byte opening c rest = ([], comment)
scan_byte comment c rest = if c == b'*' then ([], comment_star) else ([], comment)
scan_byte comment_star c rest =
    if c == b'/' then ([], start) else if c == b'*' then ([], comment_star) else ([], comment)
scan_byte include_space c rest = step_include c
scan_byte (include_name name) c rest = step_name name c rest

-- What is left at the end of the text.
abbrev pub at_end : Mode → List Lexeme
at_end (in_run run) = (read_run run).0
at_end (include_name name) = included name ∷ []
at_end _ = []

unfoldable pub scan : Mode → Text → List Lexeme
unfolding scan_byte read_run
scan m [] = at_end m
scan m (c ∷ rest) = let (ts, m') = scan_byte m c rest in ts ++ scan m' rest
