-- ===== src/Gen/Check.antt =====
-- gen.c, `applydefaults` and `checkmatch`: what a finished entry must have.
pub mod Complete
use filtergen.Base.{ℕ, Bool, List, [], ◌∷◌, ◌++◌, ◌==◌, ◌&&◌, ◌||◌, not, is_set, if◌then◌else◌}
use filtergen.Base.Int.{int_is}
use filtergen.Filter.Types.{FilterType, yyeof, localonly, routedonly, masq, tag_eq}
use filtergen.Gen.Entry.{FilterEnt, Flags}

-- IPPROTO_ICMP, IPPROTO_TCP and IPPROTO_UDP.
abbrev pub ipproto_icmp : ℕ
ipproto_icmp = 1

abbrev pub ipproto_tcp : ℕ
ipproto_tcp = 6

abbrev pub ipproto_udp : ℕ
ipproto_udp = 17

unfoldable pub applydefaults : FilterEnt → Flags → FilterEnt
applydefaults e flags =
    if not (tag_eq e.rtype yyeof)
    then e
    else if flags.local
    then record e { rtype = localonly }
    else if flags.route
    then record e { rtype = routedonly }
    else e

-- The messages of `checkmatch`, in their order; it returns how many there are.
pub data Complaint : Type 0 where
  target_missing direction_missing iface_missing : Complaint
  ports_without_tcp_or_udp icmptype_without_icmp local_masquerade : Complaint

abbrev pub complain_if : Bool → Complaint → List Complaint
complain_if b c = if b then c ∷ [] else []

unfoldable pub checkmatch : FilterEnt → List Complaint
checkmatch e =
    complain_if (not (is_set e.subgroup) && tag_eq e.target yyeof) target_missing
    ++ (complain_if (not (is_set e.groupname) && tag_eq e.direction yyeof) direction_missing
        ++ (complain_if (not (is_set e.groupname) && not (is_set e.iface)) iface_missing
            ++ (complain_if
                  ((is_set e.src.minstr || is_set e.dst.minstr)
                    && (not (int_is e.proto.num ipproto_tcp)
                        && not (int_is e.proto.num ipproto_udp)))
                  ports_without_tcp_or_udp
                ++ (complain_if (is_set e.icmp && not (int_is e.proto.num ipproto_icmp))
                      icmptype_without_icmp
                    ++ complain_if (tag_eq e.rtype localonly && tag_eq e.target masq)
                        local_masquerade))))
