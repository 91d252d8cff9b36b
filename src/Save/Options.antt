-- ===== src/Save/Options.antt =====
-- The options that t/emit.c of iptables-save prints, as the grammar reads them.
use mathlib.Core.Path.{subst}
use filtergen.Base.{Bool, true, false, Option, none, some, Text, ◌∷◌, ◌++◌, codes, ◌≡◌, refl, sym}
use filtergen.Syntax.Printable.{IsSome}
use filtergen.Save.Tree.{
  NegatableOption, destination_option, source_option, out_interface_option, PortOption,
  dport_option, sport_option, PlainOption, protocol_option, match_option, to_ports_option,
  to_source_option, state_option, limit_option, log_prefix_option, uid_owner_option,
  reject_with_option, icmp_type_option, helper_option, BareOption, fragment_option,
  clamp_mss_to_pmtu_option, syn_option, IptsOption, in_interface_option, jump_option,
  negatable_option, port_option, plain_option, tcp_flags_option, bare_option, no_option, OptionList,
  no_options, option_list,
}
use filtergen.Save.Scanner.{
  sign, tok_negatable, tok_port, tok_plain, tok_bare, between, read_save_word, save_byte, save_scan,
}
use filtergen.Save.Grammar.{
  OptionReads, reads_in_interface, reads_jump, reads_negatable, reads_range, reads_port,
  reads_plain, reads_tcp_flags, reads_bare, NotOptionReads, is_option, isnt_option, OptionsReads,
  end_options, more_options,
}
use filtergen.Save.Printer.{
  emit_if_set, emit_bang, negatable_word, port_word, plain_word, bare_word, emit_identifier,
  emit_not_identifier, emit_not_range, emit_option, emit_not_option, emit_option_list,
}
use filtergen.Save.Printable.{IsOption, AreOptions}
use filtergen.Save.Words.{ends_name_run, save_scan-word}
use filtergen.Save.Arguments.{identifier-Reads, not_identifier-Reads, not_range-Reads}

negatable_word-scan :
    (o : NegatableOption) (k : Text)
    → save_scan (between false) (negatable_word o ++ k)
      ≡ sign (tok_negatable o) ∷ save_scan (between false) k
unfolding save_scan save_byte
negatable_word-scan destination_option k = refl
negatable_word-scan source_option k = refl
negatable_word-scan out_interface_option k = refl

port_word-scan :
    (o : PortOption) (k : Text)
    → save_scan (between false) (port_word o ++ k) ≡ sign (tok_port o) ∷ save_scan (between false) k
unfolding save_scan save_byte
port_word-scan dport_option k = refl
port_word-scan sport_option k = refl

plain_word-scan :
    (o : PlainOption) (k : Text)
    → save_scan (between false) (plain_word o ++ k)
      ≡ sign (tok_plain o) ∷ save_scan (between false) k
unfolding save_scan save_byte
plain_word-scan protocol_option k = refl
plain_word-scan match_option k = refl
plain_word-scan to_ports_option k = refl
plain_word-scan to_source_option k = refl
plain_word-scan state_option k = refl
plain_word-scan limit_option k = refl
plain_word-scan log_prefix_option k = refl
plain_word-scan uid_owner_option k = refl
plain_word-scan reject_with_option k = refl
plain_word-scan icmp_type_option k = refl
plain_word-scan helper_option k = refl

bare_word-scan :
    (o : BareOption) (k : Text)
    → ends_name_run k ≡ true
    → save_scan (between false) (bare_word o ++ k) ≡ sign (tok_bare o) ∷ save_scan (between false) k
unfolding read_save_word
bare_word-scan fragment_option k ends = save_scan-word false (codes "-f") k refl ends
bare_word-scan clamp_mss_to_pmtu_option k ends =
    save_scan-word false (codes "--clamp-mss-to-pmtu") k refl ends
bare_word-scan syn_option k ends = save_scan-word false (codes "--syn") k refl ends

option-Reads :
    (o : IptsOption) (k : Text)
    → IsOption o
    → ends_name_run k ≡ true
    → OptionReads (save_scan (between false) (emit_option o k)) o (save_scan (between false) k)
unfolding save_scan save_byte
option-Reads (in_interface_option none) k ok ends = absurd ok
option-Reads (in_interface_option (some n)) k ok ends =
    reads_in_interface (not_identifier-Reads n k ok ends)
option-Reads (jump_option none) k ok ends = absurd ok
option-Reads (jump_option (some i)) k ok ends = reads_jump (identifier-Reads i k ok ends)
option-Reads (negatable_option o none) k ok ends = absurd ok
option-Reads (negatable_option o (some n)) k ok ends =
    subst (λ ts. OptionReads ts (negatable_option o (some n)) (save_scan (between false) k))
      (sym (negatable_word-scan o (emit_not_identifier n k)))
      (reads_negatable (not_identifier-Reads n k ok ends))
option-Reads (port_option o (some r) none) k ok ends =
    subst (λ ts. OptionReads ts (port_option o (some r) none) (save_scan (between false) k))
      (sym (port_word-scan o (emit_not_range r k))) (reads_range (not_range-Reads r k ok ends))
option-Reads (port_option o none (some n)) k ok ends =
    subst (λ ts. OptionReads ts (port_option o none (some n)) (save_scan (between false) k))
      (sym (port_word-scan o (emit_not_identifier n k)))
      (reads_port (not_identifier-Reads n k ok ends))
option-Reads (port_option o none none) k ok ends = absurd ok
option-Reads (port_option o (some r) (some n)) k ok ends = absurd ok
option-Reads (plain_option o none) k ok ends = absurd ok
option-Reads (plain_option o (some i)) k ok ends =
    subst (λ ts. OptionReads ts (plain_option o (some i)) (save_scan (between false) k))
      (sym (plain_word-scan o (emit_identifier i k))) (reads_plain (identifier-Reads i k ok ends))
option-Reads (tcp_flags_option none mask) k (ok, ok') ends = absurd ok
option-Reads (tcp_flags_option (some flags) none) k (ok, ok') ends = absurd ok'
option-Reads (tcp_flags_option (some flags) (some mask)) k (ok, ok') ends =
    reads_tcp_flags (identifier-Reads flags (b' ' ∷ emit_identifier mask k) ok refl)
      (identifier-Reads mask k ok' ends)
option-Reads (bare_option o) k ok ends =
    subst (λ ts. OptionReads ts (bare_option o) (save_scan (between false) k))
      (sym (bare_word-scan o k ends)) reads_bare
option-Reads no_option k ok ends = absurd ok

negated-Reads :
    (b : Bool) (o : Option IptsOption) (k : Text)
    → IsSome IsOption o
    → ends_name_run k ≡ true
    → NotOptionReads
        (save_scan (between false) (emit_bang b (emit_if_set emit_option o k)))
        record { neg = b; option = o }
        (save_scan (between false) k)
unfolding save_scan save_byte
negated-Reads b none k ok ends = absurd ok
negated-Reads false (some o) k ok ends = is_option (option-Reads o k ok ends)
negated-Reads true (some o) k ok ends = isnt_option (option-Reads o k ok ends)

pub options-Reads :
    (l : OptionList) (k : Text)
    → AreOptions l
    → ends_name_run k ≡ true
    → OptionsReads
        (save_scan (between false) (emit_option_list l k))
        l
        (save_scan (between false) k)
unfolding save_scan save_byte emit_option_list AreOptions
options-Reads no_options k ok ends = end_options
options-Reads (option_list no_options n) k (ok, is) ends =
    more_options end_options (negated-Reads n.neg n.option k is ends)
options-Reads (option_list (option_list l m) n) k (ok, is) ends =
    more_options (options-Reads (option_list l m) (b' ' ∷ emit_not_option n k) ok refl)
      (negated-Reads n.neg n.option k is ends)
