-- ===== src/Syntax/Words.antt =====
-- scanner.l on what t/emit.c prints: runs of the bytes of identifiers, and quoted names.
use filtergen.Base.{
  suc, Bool, true, false, ◌&&◌, not, none, some, Text, List, [], ◌∷◌, ◌++◌, length, ◌==◌,
  if◌then◌else◌, ◌≡◌, refl, sym, ap, ◌∙◌, both_true,
}
use mathlib.Core.List.{append_assoc, append-nil}
use filtergen.Glue.Ast.{tok_colon}
use filtergen.Syntax.Scanner.{
  Lexeme, token, identifier, start, in_run, skip, is_id_char, cut_colon, read_word, read_run,
  to_last_quote, step_start, step_behind, scan_byte, read_string, scan,
}

-- Bytes of identifiers only, and at least one.
abbrev pub all_id : Text → Bool
all_id [] = true
all_id (c ∷ w) = is_id_char c && all_id w

abbrev pub is_id_run : Text → Bool
is_id_run [] = false
is_id_run (c ∷ w) = all_id (c ∷ w)

-- A run ends before this text.
abbrev pub ends_word : Text → Bool
ends_word [] = true
ends_word (c ∷ k) = not (is_id_char c)

pub not-true : (b : Bool) → not b ≡ true → b ≡ false
not-true true h = sym h
not-true false h = refl

-- A run is read to its end.
scan_in_run :
    (run w k : Text) → all_id w ≡ true → scan (in_run run) (w ++ k) ≡ scan (in_run (run ++ w)) k
unfolding scan scan_byte
scan_in_run run [] k all = ap (λ r. scan (in_run r) k) (sym (append-nil run))
scan_in_run run (c ∷ w) k all =
    let (e, es) = both_true (is_id_char c) (all_id w) all in
    let rest = scan_in_run (run ++ c ∷ []) w k es in
    rw e (rest ∙ ap (λ r. scan (in_run r) k) (append_assoc run (c ∷ []) w))

scan_run_end :
    (run k : Text) (ts : List Lexeme)
    → ends_word k ≡ true
    → read_run run ≡ (ts, start)
    → scan (in_run run) k ≡ ts ++ scan start k
unfolding scan scan_byte
scan_run_end run [] ts ends read = ap (λ r. r.0) read ∙ sym (append-nil ts)
scan_run_end run (c ∷ k) ts ends read =
    let e = not-true (is_id_char c) ends in
    ap
      (λ b.
        let p = if b then ([], in_run (run ++ c ∷ [])) else step_behind (read_run run) c k in
        p.0 ++ scan p.1 k)
      e
    ∙ ap (λ r. (step_behind r c k).0 ++ scan (step_behind r c k).1 k) read
    ∙ append_assoc ts (step_start c k).0 (scan (step_start c k).1 k)

pub scan_run :
    (w k : Text) (ts : List Lexeme)
    → is_id_run w ≡ true
    → ends_word k ≡ true
    → read_run w ≡ (ts, start)
    → scan start (w ++ k) ≡ ts ++ scan start k
unfolding scan scan_byte step_start
scan_run [] k ts all ends read = cc
scan_run (c ∷ w) k ts all ends read =
    let (e, es) = both_true (is_id_char c) (all_id w) all in
    rw e (scan_in_run (c ∷ []) w k es ∙ scan_run_end (c ∷ w) k ts ends read)

abbrev pub no_colon : Text → Bool
no_colon [] = true
no_colon (c ∷ w) = not (c == b':') && no_colon w

-- A word has no colon, and is neither a keyword nor `include`.
pub record IsWord (w : Text) : Type 0 where
  pub is_run : is_id_run w ≡ true
  pub is_whole : no_colon w ≡ true
  pub is_name : read_word w ≡ (identifier w ∷ [], start)

-- What the scanner takes for one identifier: a word, or a run with several colons.
pub record IsIdentifier (w : Text) : Type 0 where
  pub is_run : is_id_run w ≡ true
  pub is_name : read_run w ≡ (identifier w ∷ [], start)

pub scan-identifier :
    (w k : Text)
    → IsIdentifier w
    → ends_word k ≡ true
    → scan start (w ++ k) ≡ identifier w ∷ scan start k
scan-identifier w k ok ends =
    scan_run w k (identifier w ∷ []) (IsIdentifier.is_run ok) ends (IsIdentifier.is_name ok)

-- Where there is no colon, the whole is one piece; two words with a colon between them are two.
cut_colon-whole : (w : Text) → no_colon w ≡ true → cut_colon w ≡ (w, none)
unfolding cut_colon
cut_colon-whole [] free = refl
cut_colon-whole (c ∷ w) free =
    let (e, es) = both_true (not (c == b':')) (no_colon w) free in
    rw (not-true (c == b':') e, cut_colon-whole w es) refl

cut_colon-words : (v w : Text) → no_colon v ≡ true → cut_colon (v ++ b':' ∷ w) ≡ (v, some w)
unfolding cut_colon
cut_colon-words [] w free = refl
cut_colon-words (c ∷ v) w free =
    let (e, es) = both_true (not (c == b':')) (no_colon v) free in
    rw (not-true (c == b':') e, cut_colon-words v w es) refl

pub IsWord-IsIdentifier : (w : Text) → IsWord w → IsIdentifier w
unfolding read_run
IsWord-IsIdentifier w ok = record {
  is_run = IsWord.is_run ok;
  is_name = rw (cut_colon-whole w (IsWord.is_whole ok)) (IsWord.is_name ok);
}

all_id-append : (v w : Text) → all_id v ≡ true → all_id w ≡ true → all_id (v ++ w) ≡ true
all_id-append [] w a b = b
all_id-append (c ∷ v) w a b =
    let (e, es) = both_true (is_id_char c) (all_id v) a in rw e (all_id-append v w es b)

-- A string is read to the last quote of its line.
abbrev pub one_line : Text → Bool
one_line [] = true
one_line (c ∷ s) = not (c == b'\n') && one_line s

to_last_quote-line :
    (s k : Text) → one_line s ≡ true → to_last_quote (s ++ b'"' ∷ b'\n' ∷ k) ≡ some s
unfolding to_last_quote
to_last_quote-line [] k line = refl
to_last_quote-line (c ∷ s) k line =
    let (e, es) = both_true (not (c == b'\n')) (one_line s) line in
    let e' = not-true (c == b'\n') e in let rest = to_last_quote-line s k es in rw (e', rest) refl

scan_skip : (s k : Text) → scan (skip (suc (length s))) (s ++ b'"' ∷ k) ≡ scan start k
unfolding scan scan_byte
scan_skip [] k = refl
scan_skip (c ∷ s) k = scan_skip s k

abbrev pub is_text : Text → Bool
is_text [] = false
is_text (c ∷ s) = one_line (c ∷ s)

pub scan-string :
    (s k : Text)
    → is_text s ≡ true
    → scan start (b'"' ∷ s ++ b'"' ∷ b'\n' ∷ k) ≡ identifier s ∷ scan start k
unfolding scan scan_byte step_start
scan-string [] k ok = cc
scan-string (c ∷ s) k ok =
    ap (λ o. (read_string o).0 ++ scan (read_string o).1 (c ∷ s ++ b'"' ∷ b'\n' ∷ k))
      (to_last_quote-line (c ∷ s) k ok)
    ∙ ap (λ ts. identifier (c ∷ s) ∷ ts) (scan_skip (c ∷ s) (b'\n' ∷ k))

-- Two words with a colon between them are three lexemes.
read_run-words :
    (v w : Text)
    → IsWord v
    → IsWord w
    → read_run (v ++ b':' ∷ w) ≡ (identifier v ∷ token tok_colon ∷ identifier w ∷ [], start)
unfolding read_run
read_run-words [] w is is' = cc (IsWord.is_run is)
read_run-words (c ∷ v) [] is is' = cc (IsWord.is_run is')
read_run-words (c ∷ v) (d ∷ w) is is' =
    rw
      (
        cut_colon-words (c ∷ v) (d ∷ w) (IsWord.is_whole is),
        cut_colon-whole (d ∷ w) (IsWord.is_whole is'),
        IsWord.is_name is,
        IsWord.is_name is',
      )
      refl

is_id_run-words :
    (v w : Text) → is_id_run v ≡ true → is_id_run w ≡ true → is_id_run (v ++ b':' ∷ w) ≡ true
is_id_run-words [] w a b = cc
is_id_run-words (c ∷ v) [] a b = cc
is_id_run-words (c ∷ v) (d ∷ w) a b = all_id-append (c ∷ v) (b':' ∷ d ∷ w) a b

pub scan-range :
    (v w k : Text)
    → IsWord v
    → IsWord w
    → ends_word k ≡ true
    → scan start (v ++ b':' ∷ (w ++ k))
      ≡ identifier v ∷ token tok_colon ∷ identifier w ∷ scan start k
scan-range v w k is is' ends =
    let run = is_id_run-words v w (IsWord.is_run is) (IsWord.is_run is') in
    let read = read_run-words v w is is' in
    ap (scan start) (sym (append_assoc v (b':' ∷ w) k))
    ∙ scan_run (v ++ b':' ∷ w) k (identifier v ∷ token tok_colon ∷ identifier w ∷ []) run ends read
