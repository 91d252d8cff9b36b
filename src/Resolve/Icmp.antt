-- ===== src/Resolve/Icmp.antt =====
-- icmpent.c: the ICMP types of RFC 1700 and their names.
pub mod Found
use filtergen.Base.{Bool, Option, none, some, Text, List, [], ◌∷◌, codes, text_eq, if◌then◌else◌}

pub record IcmpEnt : Type 0 where
  pub i_type : Text
  pub name : Text

abbrev pub entry : Text → Text → IcmpEnt
entry t n = record { i_type = t; name = n }

-- `icmpcodes`, without the entry that ends it.
unfoldable pub icmpcodes : List IcmpEnt
icmpcodes =
    entry (codes "0") (codes "echo-reply")
    ∷ entry (codes "3") (codes "destination-unreachable")
    ∷ entry (codes "3/0") (codes "network-unreachable")
    ∷ entry (codes "3/1") (codes "host-unreachable")
    ∷ entry (codes "3/2") (codes "protocol-unreachable")
    ∷ entry (codes "3/3") (codes "port-unreachable")
    ∷ entry (codes "3/4") (codes "fragmentation-needed")
    ∷ entry (codes "3/5") (codes "source-route-failed")
    ∷ entry (codes "3/6") (codes "network-unknown")
    ∷ entry (codes "3/7") (codes "host-unknown")
    ∷ entry (codes "3/8") (codes "source-host-isolated")
    ∷ entry (codes "3/9") (codes "network-prohibited")
    ∷ entry (codes "3/10") (codes "host-prohibited")
    ∷ entry (codes "3/11") (codes "tos-network-unreachable")
    ∷ entry (codes "3/12") (codes "tos-host-unreachable")
    ∷ entry (codes "3/13") (codes "communication-prohibited")
    ∷ entry (codes "3/14") (codes "host-precedence-violation")
    ∷ entry (codes "3/15") (codes "precedence-cutoff")
    ∷ entry (codes "4") (codes "source-quench")
    ∷ entry (codes "5") (codes "redirect")
    ∷ entry (codes "5/0") (codes "redirect-network")
    ∷ entry (codes "5/1") (codes "redirect-host")
    ∷ entry (codes "5/2") (codes "redirect-tos-network")
    ∷ entry (codes "5/3") (codes "redirect-tos-host")
    ∷ entry (codes "6") (codes "alternate-host-address")
    ∷ entry (codes "8") (codes "echo-request")
    ∷ entry (codes "9") (codes "router-advertisement")
    ∷ entry (codes "9/0") (codes "router-advertisement-normal")
    ∷ entry (codes "9/16") (codes "router-advertisement-uncommon")
    ∷ entry (codes "10") (codes "router-selection")
    ∷ entry (codes "11") (codes "time-exceeded")
    ∷ entry (codes "11/0") (codes "time-exceeded-in-transmit")
    ∷ entry (codes "11/1") (codes "time-exceeded-fragment-reassembly")
    ∷ entry (codes "12") (codes "parameter-problem")
    ∷ entry (codes "12/0") (codes "parameter-problem-pointer")
    ∷ entry (codes "12/1") (codes "parameter-problem-missing-option")
    ∷ entry (codes "12/2") (codes "parameter-problem-bad-length")
    ∷ entry (codes "13") (codes "timestamp-request")
    ∷ entry (codes "14") (codes "timestamp-reply")
    ∷ entry (codes "15") (codes "information-request")
    ∷ entry (codes "16") (codes "information-reply")
    ∷ entry (codes "17") (codes "address-mask-request")
    ∷ entry (codes "18") (codes "address-mask-reply")
    ∷ entry (codes "30") (codes "traceroute")
    ∷ entry (codes "31") (codes "datagram-conversion-error")
    ∷ entry (codes "32") (codes "mobile-host-redirect")
    ∷ entry (codes "33") (codes "ipv6-where-are-you")
    ∷ entry (codes "34") (codes "ipv6-i-am-here")
    ∷ entry (codes "35") (codes "mobile-registration-request")
    ∷ entry (codes "36") (codes "mobile-registration-reply")
    ∷ entry (codes "37") (codes "domain-name-request")
    ∷ entry (codes "38") (codes "domain-name-reply")
    ∷ entry (codes "39") (codes "skip")
    ∷ entry (codes "40") (codes "photuris")
    ∷ entry (codes "40/0") (codes "photuris-bad-spi")
    ∷ entry (codes "40/1") (codes "photuris-authn-failed")
    ∷ entry (codes "40/2") (codes "photuris-decompression-failed")
    ∷ entry (codes "40/3") (codes "photuris-decryption-failed")
    ∷ entry (codes "40/4") (codes "photuris-need-authn")
    ∷ entry (codes "40/5") (codes "photuris-need-authz")
    ∷ []

-- The loop of `geticmpbyname`, over the rest of the table.
unfoldable pub find_icmp : Text → List IcmpEnt → Option IcmpEnt
unfolding text_eq
find_icmp name [] = none
find_icmp name (e ∷ es) = if text_eq name e.name then some e else find_icmp name es

unfoldable pub geticmpbyname : Text → Option IcmpEnt
unfolding find_icmp
geticmpbyname name = find_icmp name icmpcodes
