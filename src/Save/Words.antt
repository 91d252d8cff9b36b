-- ===== src/Save/Words.antt =====
-- scanner.l of iptables-save on what its t/emit.c prints: words, counters and identifiers.
use mathlib.Core.Path.{subst}
use filtergen.Base.{
  ℕ, Bool, true, false, ◌&&◌, not, Text, List, [], ◌∷◌, ◌++◌, ◌==◌, if◌then◌else◌, ◌≡◌, refl, sym,
  ap, ◌∙◌, both_true, Bool-cases, equal_bytes, inl, inr,
}
use mathlib.Core.List.{append_assoc, append-nil}
use filtergen.Syntax.Words.{not-true}
use filtergen.Save.Scanner.{
  SaveLexeme, save_name, is_name_char, SaveMode, between, in_word, read_save_word, between_byte,
  save_byte, save_scan,
}
use filtergen.Save.Printer.{has_space, emit_quote, emit_spaced}

abbrev pub all_name : Text → Bool
all_name [] = true
all_name (c ∷ w) = is_name_char c && all_name w

abbrev pub is_name_run : Text → Bool
is_name_run [] = false
is_name_run (c ∷ w) = all_name (c ∷ w)

-- A word ends before this text.
abbrev pub ends_name_run : Text → Bool
ends_name_run [] = true
ends_name_run (c ∷ k) = not (is_name_char c)

scan_in_word :
    (first : Bool) (run w k : Text)
    → all_name w ≡ true
    → save_scan (in_word first run) (w ++ k) ≡ save_scan (in_word first (run ++ w)) k
unfolding save_scan save_byte
scan_in_word first run [] k all = ap (λ r. save_scan (in_word first r) k) (sym (append-nil run))
scan_in_word first run (c ∷ w) k all =
    let (e, es) = both_true (is_name_char c) (all_name w) all in
    let rest = scan_in_word first (run ++ c ∷ []) w k es in
    rw e (rest ∙ ap (λ r. save_scan (in_word first r) k) (append_assoc run (c ∷ []) w))

scan_word_end :
    (first : Bool) (run k : Text)
    → ends_name_run k ≡ true
    → save_scan (in_word first run) k ≡ read_save_word first run ∷ save_scan (between false) k
unfolding save_scan save_byte
scan_word_end first run [] ends = refl
scan_word_end first run (c ∷ k) ends =
    let behind : List SaveLexeme × SaveMode =
      (read_save_word first run ∷ (between_byte false c k).0, (between_byte false c k).1) in
    ap
      (λ b.
        let p = if b then ([], in_word first (run ++ c ∷ [])) else behind in p.0 ++ save_scan p.1 k)
      (not-true (is_name_char c) ends)

-- A word is one lexeme.
pub save_scan-word :
    (first : Bool) (w k : Text)
    → is_name_run w ≡ true
    → ends_name_run k ≡ true
    → save_scan (between first) (w ++ k) ≡ read_save_word first w ∷ save_scan (between false) k
unfolding save_scan save_byte between_byte
save_scan-word first [] k all ends = cc
save_scan-word first (c ∷ w) k all ends =
    let (e, es) = both_true (is_name_char c) (all_name w) all in
    rw e (scan_in_word first (c ∷ []) w k es ∙ scan_word_end first (c ∷ w) k ends)

-- A word that is no option.
pub record IsSaveName (w : Text) : Type 0 where
  pub is_run : is_name_run w ≡ true
  pub is_read : read_save_word false w ≡ save_name w

pub save_scan-name :
    (w k : Text)
    → IsSaveName w
    → ends_name_run k ≡ true
    → save_scan (between false) (w ++ k) ≡ save_name w ∷ save_scan (between false) k
save_scan-name w k ok ends =
    save_scan-word false w k (IsSaveName.is_run ok) ends
    ∙ ap (λ t. t ∷ save_scan (between false) k) (IsSaveName.is_read ok)

name_no_space : (c : ℕ) → is_name_char c ≡ true → (c == b' ') ≡ false
name_no_space c is = elim (Bool-cases (c == b' ')) [
  | inl space ↦ cc (subst (λ d. is_name_char d ≡ true) (equal_bytes c b' ' space) is)
  | inr other ↦ other
]

name-has_space : (w : Text) → all_name w ≡ true → has_space w ≡ false
name-has_space [] all = refl
name-has_space (c ∷ w) all =
    let (e, es) = both_true (is_name_char c) (all_name w) all in
    rw (name_no_space c e) (name-has_space w es)

run-has_space : (w : Text) → is_name_run w ≡ true → has_space w ≡ false
run-has_space [] all = refl
run-has_space (c ∷ w) all = name-has_space (c ∷ w) all

pub save_scan-identifier :
    (w k : Text)
    → IsSaveName w
    → ends_name_run k ≡ true
    → save_scan (between false) (emit_spaced w k) ≡ save_name w ∷ save_scan (between false) k
save_scan-identifier w k ok ends =
    ap (λ b. save_scan (between false) (emit_quote b (w ++ emit_quote b k)))
      (run-has_space w (IsSaveName.is_run ok))
    ∙ save_scan-name w k ok ends
