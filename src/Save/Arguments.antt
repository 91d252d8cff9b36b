-- ===== src/Save/Arguments.antt =====
-- The arguments that t/emit.c of iptables-save prints, as the grammar reads them.
use mathlib.Core.Path.{subst}
use filtergen.Base.{Bool, true, false, Option, none, some, Text, ◌∷◌, ◌++◌, ◌≡◌, refl, sym, ap, ◌∙◌}
use filtergen.Syntax.Printable.{IsSome}
use filtergen.Save.Tree.{PktCount, Identifier, NotIdentifier, Range, NotRange}
use filtergen.Save.Scanner.{
  sign, save_name, tok_save_colon, tok_save_lsquare, between, save_byte, save_scan,
}
use filtergen.Save.Grammar.{
  PktCountReads, reads_counts, IdentifierReads, plain_identifier, NotIdentifierReads, is_identifier,
  isnt_identifier, RangeReads, whole_range, lower_range, upper_range, NotRangeReads, is_range,
  isnt_range,
}
use filtergen.Save.Printer.{
  emit_if_set, emit_string, emit_bang, emit_pkt_count, emit_spaced, emit_identifier,
  emit_not_identifier, emit_range, emit_not_range,
}
use filtergen.Save.Printable.{IsNamed, IsNamedNot, AreEnds, IsRange, IsRangeNot, AreCounts}
use filtergen.Save.Words.{IsSaveName, ends_name_run, save_scan-name, save_scan-identifier}

string-Reads :
    (s : Option Text) (k : Text)
    → IsSome IsSaveName s
    → ends_name_run k ≡ true
    → IdentifierReads
        (save_scan (between false) (emit_if_set emit_spaced s k))
        record { string = s }
        (save_scan (between false) k)
string-Reads none k ok ends = absurd ok
string-Reads (some w) k ok ends =
    subst (λ ts. IdentifierReads ts record { string = some w } (save_scan (between false) k))
      (sym (save_scan-identifier w k ok ends)) plain_identifier

pub identifier-Reads :
    (i : Identifier) (k : Text)
    → IsNamed i
    → ends_name_run k ≡ true
    → IdentifierReads
        (save_scan (between false) (emit_identifier i k))
        i
        (save_scan (between false) k)
identifier-Reads i k ok ends = string-Reads i.string k ok ends

negatable-Reads :
    (b : Bool) (i : Option Identifier) (k : Text)
    → IsSome IsNamed i
    → ends_name_run k ≡ true
    → NotIdentifierReads
        (save_scan (between false) (emit_bang b (emit_if_set emit_identifier i k)))
        record { neg = b; identifier = i }
        (save_scan (between false) k)
unfolding save_scan save_byte
negatable-Reads b none k ok ends = absurd ok
negatable-Reads false (some i) k ok ends = is_identifier (identifier-Reads i k ok ends)
negatable-Reads true (some i) k ok ends = isnt_identifier (identifier-Reads i k ok ends)

pub not_identifier-Reads :
    (n : NotIdentifier) (k : Text)
    → IsNamedNot n
    → ends_name_run k ≡ true
    → NotIdentifierReads
        (save_scan (between false) (emit_not_identifier n k))
        n
        (save_scan (between false) k)
not_identifier-Reads n k ok ends = negatable-Reads n.neg n.identifier k ok ends

ends-Reads :
    (i j : Option Identifier) (k : Text)
    → AreEnds i j
    → ends_name_run k ≡ true
    → RangeReads
        (save_scan
          (between false)
          (emit_if_set emit_identifier i (b':' ∷ emit_if_set emit_identifier j k)))
        record { start = i; end = j }
        (save_scan (between false) k)
unfolding save_scan save_byte
ends-Reads none none k ok ends = absurd ok
ends-Reads (some i) none k ok ends = lower_range (identifier-Reads i (b':' ∷ k) ok refl)
ends-Reads none (some j) k ok ends = upper_range (identifier-Reads j k ok ends)
ends-Reads (some i) (some j) k (ok, ok') ends =
    whole_range (identifier-Reads i (b':' ∷ emit_identifier j k) ok refl)
      (identifier-Reads j k ok' ends)

ranged-Reads :
    (b : Bool) (r : Option Range) (k : Text)
    → IsSome IsRange r
    → ends_name_run k ≡ true
    → NotRangeReads
        (save_scan (between false) (emit_bang b (emit_if_set emit_range r k)))
        record { neg = b; range = r }
        (save_scan (between false) k)
unfolding save_scan save_byte
ranged-Reads b none k ok ends = absurd ok
ranged-Reads false (some r) k ok ends = is_range (ends-Reads r.start r.end k ok ends)
ranged-Reads true (some r) k ok ends = isnt_range (ends-Reads r.start r.end k ok ends)

pub not_range-Reads :
    (n : NotRange) (k : Text)
    → IsRangeNot n
    → ends_name_run k ≡ true
    → NotRangeReads (save_scan (between false) (emit_not_range n k)) n (save_scan (between false) k)
not_range-Reads n k ok ends = ranged-Reads n.neg n.range k ok ends

-- Counters, at the start of a line or behind a policy.
counted-Reads :
    (first : Bool) (i o : Option Text) (k : Text)
    → IsSome IsSaveName i
    → IsSome IsSaveName o
    → PktCountReads
        (save_scan
          (between first)
          (b'[' ∷ emit_if_set emit_string i (b':' ∷ emit_if_set emit_string o (b']' ∷ k))))
        record { packets_in = i; packets_out = o }
        (save_scan (between false) k)
unfolding save_scan save_byte
counted-Reads first none o k ok ok' = absurd ok
counted-Reads first (some i) none k ok ok' = absurd ok'
counted-Reads first (some i) (some o) k ok ok' =
    subst
      (λ ts.
        PktCountReads ts record { packets_in = some i; packets_out = some o }
          (save_scan (between false) k))
      (sym (
        ap (λ ts. sign tok_save_lsquare ∷ ts) (save_scan-name i (b':' ∷ (o ++ b']' ∷ k)) ok refl)
        ∙ ap (λ ts. sign tok_save_lsquare ∷ save_name i ∷ sign tok_save_colon ∷ ts)
            (save_scan-name o (b']' ∷ k) ok' refl)))
      reads_counts

pub pkt_count-Reads :
    (first : Bool) (n : PktCount) (k : Text)
    → AreCounts n
    → PktCountReads (save_scan (between first) (emit_pkt_count n k)) n (save_scan (between false) k)
pkt_count-Reads first n k (ok, ok') = counted-Reads first n.packets_in n.packets_out k ok ok'
