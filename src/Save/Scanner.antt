-- ===== src/Save/Scanner.antt =====
-- input/iptables-save/scanner.l: from bytes to tokens. What no pattern takes is copied to the
-- standard output, and is left out here, with the positions.
use filtergen.Base.{
  ℕ, zero, suc, Bool, true, false, ◌&&◌, ◌||◌, Option, some, Text, List, [], ◌∷◌, ◌++◌, codes,
  length, leb, ◌==◌, text_eq, if◌then◌else◌,
}
use filtergen.Syntax.Scanner.{to_last_quote}
use filtergen.Save.Tree.{
  NegatableOption, destination_option, source_option, out_interface_option, PortOption,
  dport_option, sport_option, PlainOption, protocol_option, match_option, to_ports_option,
  to_source_option, state_option, limit_option, log_prefix_option, uid_owner_option,
  reject_with_option, icmp_type_option, helper_option, BareOption, fragment_option,
  clamp_mss_to_pmtu_option, syn_option,
}

-- The tokens of parser.y that the scanner returns; a group of options has one constructor.
pub data SaveToken : Type 0 where
  tok_table tok_chain tok_chain_append tok_commit : SaveToken
  tok_in_interface tok_jump tok_tcp_flags tok_set_counters : SaveToken
  tok_source_ports tok_destination_ports tok_ports tok_tcp_option tok_mss : SaveToken
  tok_negatable : NegatableOption → SaveToken
  tok_port : PortOption → SaveToken
  tok_plain : PlainOption → SaveToken
  tok_bare : BareOption → SaveToken
  tok_save_lsquare tok_save_rsquare tok_save_colon tok_save_bang tok_quote : SaveToken

pub data SaveLexeme : Type 0 where
  sign : SaveToken → SaveLexeme
  save_name : Text → SaveLexeme

-- `[[:alnum:]_+-\.\/~]`: from the plus to the point are the comma and the dash too.
abbrev pub is_name_char : ℕ → Bool
is_name_char c =
    (leb b'0' c && leb c b'9')
    || (leb b'A' c && leb c b'Z')
    || (leb b'a' c && leb c b'z')
    || c == b'_'
    || (leb b'+' c && leb c b'.')
    || c == b'/'
    || c == b'~'

-- The options, short and long.
abbrev pub option_words : List (Text × SaveToken)
option_words =
    (codes "-A", tok_chain_append)
    ∷ (codes "--append", tok_chain_append)
    ∷ (codes "-p", tok_plain protocol_option)
    ∷ (codes "--protocol", tok_plain protocol_option)
    ∷ (codes "-s", tok_negatable source_option)
    ∷ (codes "--source", tok_negatable source_option)
    ∷ (codes "-d", tok_negatable destination_option)
    ∷ (codes "--destination", tok_negatable destination_option)
    ∷ (codes "-j", tok_jump)
    ∷ (codes "--jump", tok_jump)
    ∷ (codes "-i", tok_in_interface)
    ∷ (codes "--in-interface", tok_in_interface)
    ∷ (codes "-o", tok_negatable out_interface_option)
    ∷ (codes "--out-interface", tok_negatable out_interface_option)
    ∷ (codes "-f", tok_bare fragment_option)
    ∷ (codes "--fragment", tok_bare fragment_option)
    ∷ (codes "-c", tok_set_counters)
    ∷ (codes "--set-counters", tok_set_counters)
    ∷ (codes "-m", tok_plain match_option)
    ∷ (codes "--match", tok_plain match_option)
    ∷ (codes "--dport", tok_port dport_option)
    ∷ (codes "--destination-port", tok_port dport_option)
    ∷ (codes "--sport", tok_port sport_option)
    ∷ (codes "--source-port", tok_port sport_option)
    ∷ (codes "--sports", tok_source_ports)
    ∷ (codes "--source-ports", tok_source_ports)
    ∷ (codes "--dports", tok_destination_ports)
    ∷ (codes "--destination-ports", tok_destination_ports)
    ∷ (codes "--ports", tok_ports)
    ∷ (codes "--tcp-flags", tok_tcp_flags)
    ∷ (codes "--syn", tok_bare syn_option)
    ∷ (codes "--tcp-option", tok_tcp_option)
    ∷ (codes "--mss", tok_mss)
    ∷ (codes "--state", tok_plain state_option)
    ∷ (codes "--icmp-type", tok_plain icmp_type_option)
    ∷ (codes "--to-ports", tok_plain to_ports_option)
    ∷ (codes "--to-source", tok_plain to_source_option)
    ∷ (codes "--limit", tok_plain limit_option)
    ∷ (codes "--log-prefix", tok_plain log_prefix_option)
    ∷ (codes "--uid-owner", tok_plain uid_owner_option)
    ∷ (codes "--reject-with", tok_plain reject_with_option)
    ∷ (codes "--clamp-mss-to-pmtu", tok_bare clamp_mss_to_pmtu_option)
    ∷ (codes "--helper", tok_plain helper_option)
    ∷ []

abbrev pub find_word : Text → List (Text × SaveToken) → SaveLexeme
find_word w [] = save_name w
find_word w ((k, t) ∷ ks) = if text_eq w k then sign t else find_word w ks

-- Between tokens, at the start of a line or not; in a word that began there or not; in a comment;
-- in what a string has matched already.
pub data SaveMode : Type 0 where
  between : Bool → SaveMode
  in_word : Bool → Text → SaveMode
  in_comment : SaveMode
  skipping : ℕ → SaveMode

unfoldable pub read_save_word : Bool → Text → SaveLexeme
unfolding text_eq
read_save_word first w =
    if first && text_eq w (codes "COMMIT") then sign tok_commit else find_word w option_words

abbrev pub read_save_string : Option Text → List SaveLexeme × SaveMode
read_save_string (some (c ∷ s)) = (save_name (c ∷ s) ∷ [], skipping (suc (length (c ∷ s))))
read_save_string _ = (sign tok_quote ∷ [], between false)

unfoldable pub between_byte : Bool → ℕ → Text → List SaveLexeme × SaveMode
unfolding to_last_quote
between_byte first c rest =
    if is_name_char c
    then ([], in_word first (c ∷ []))
    else if c == b'\n'
    then ([], between true)
    else if c == b'#'
    then ([], in_comment)
    else if c == b'*' && first
    then (sign tok_table ∷ [], between false)
    else if c == b':' && first
    then (sign tok_chain ∷ [], between false)
    else if c == b'"'
    then read_save_string (to_last_quote rest)
    else if c == b'['
    then (sign tok_save_lsquare ∷ [], between false)
    else if c == b']'
    then (sign tok_save_rsquare ∷ [], between false)
    else if c == b':'
    then (sign tok_save_colon ∷ [], between false)
    else if c == b'!'
    then (sign tok_save_bang ∷ [], between false)
    else ([], between false)

unfoldable pub save_byte : SaveMode → ℕ → Text → List SaveLexeme × SaveMode
unfolding between_byte read_save_word
save_byte (between first) c rest = between_byte first c rest
save_byte (in_word first w) c rest =
    if is_name_char c
    then ([], in_word first (w ++ c ∷ []))
    else (let (ts, m) = between_byte false c rest in (read_save_word first w ∷ ts, m))
save_byte in_comment c rest = if c == b'\n' then ([], between true) else ([], in_comment)
save_byte (skipping zero) c rest = between_byte false c rest
save_byte (skipping (suc zero)) c rest = ([], between false)
save_byte (skipping (suc (suc n))) c rest = ([], skipping (suc n))

abbrev pub save_end : SaveMode → List SaveLexeme
save_end (in_word first w) = read_save_word first w ∷ []
save_end _ = []

unfoldable pub save_scan : SaveMode → Text → List SaveLexeme
unfolding save_byte read_save_word
save_scan m [] = save_end m
save_scan m (c ∷ rest) = let (ts, m') = save_byte m c rest in ts ++ save_scan m' rest
