-- ===== src/Output/Iptables/Choice.antt =====
-- output/iptables/fg-iptables.c: the state of the rule function, and the chains and targets that its
-- two switches choose.
use filtergen.Base.{Bool, true, ◌||◌, Option, none, some, Text, codes, is_set, if◌then◌else◌}
use filtergen.Filter.Types.{
  FilterType, input, output, t_accept, drop, t_reject, masq, redirect, f_subgroup, tag_eq,
}
use filtergen.Gen.Entry.{FilterEnt}
use filtergen.Gen.Check.{ipproto_tcp, ipproto_udp}
use filtergen.Base.Int.{int_is}
use filtergen.Output.Strapp.{Written}

-- `*feat`: the bits 0x04, A_TCP (0x10) and A_UDP (0x20).
pub record Features : Type 0 where
  pub bit_2 : Bool
  pub tcp : Bool
  pub udp : Bool

-- What the rule function writes to: the output and the features.
pub record Made : Type 0 where
  pub written : Written
  pub feat : Features

-- `*feat |= A_TCP` and `*feat |= A_UDP`, for an entry with a protocol.
abbrev pub note_protocol : FilterEnt → Features → Features
note_protocol ent feat =
    if is_set ent.proto.name
    then record feat {
      tcp = feat.tcp || int_is ent.proto.num ipproto_tcp;
      udp = feat.udp || int_is ent.proto.num ipproto_udp;
    }
    else feat

-- `*feat |= T_REJECT`. T_REJECT is 20, which is 0x10 | 0x04.
abbrev pub note_reject : FilterType → Features → Features
note_reject target feat =
    if tag_eq target t_reject then record feat { bit_2 = true; tcp = true } else feat

-- The chains and the words of the interface for a direction.
pub record Chains : Type 0 where
  pub nat : Text
  pub rule : Text
  pub rev : Text
  pub fwd : Text
  pub fwd_rev : Text
  pub iface_word : Text
  pub back_word : Text

unfoldable pub chains_of : FilterType → Option Chains
chains_of input = some (record {
  nat = codes "PREROUTING";
  rule = codes "INPUT";
  rev = codes "OUTPUT";
  fwd = codes "FORWARD";
  fwd_rev = codes "FORW_OUT";
  iface_word = codes "-i";
  back_word = codes "-o";
})
chains_of output = some (record {
  nat = codes "POSTROUTING";
  rule = codes "OUTPUT";
  rev = codes "INPUT";
  fwd = codes "FORW_OUT";
  fwd_rev = codes "FORWARD";
  iface_word = codes "-o";
  back_word = codes "-i";
})
chains_of _ = none

-- What each rule jumps to. The targets of returning rules are null where none is written.
pub record Targets : Type 0 where
  pub rule : Text
  pub rev : Option Text
  pub fwd : Text
  pub fwd_rev : Option Text

abbrev pub accepting : FilterType → Targets
accepting input = record {
  rule = codes "ACCEPT";
  rev = some (codes "ACCEPT");
  fwd = codes "FORW_OUT";
  fwd_rev = some (codes "ACCEPT");
}
accepting _ = record {
  rule = codes "ACCEPT";
  rev = some (codes "ACCEPT");
  fwd = codes "ACCEPT";
  fwd_rev = some (codes "FORW_OUT");
}

abbrev pub grouped : FilterType → Targets
grouped input = record {
  rule = codes "INPUT";
  rev = some (codes "OUTPUT");
  fwd = codes "FORWARD";
  fwd_rev = some (codes "FORW_OUT");
}
grouped _ = record {
  rule = codes "OUTPUT";
  rev = some (codes "INPUT");
  fwd = codes "FORW_OUT";
  fwd_rev = some (codes "FORWARD");
}

abbrev pub refusing : Text → FilterType → Targets
refusing word dir = record {
  rule = word;
  rev = none;
  fwd = if tag_eq dir input then codes "FORW_OUT" else word;
  fwd_rev = none;
}

-- The switch on the target, for a direction that is INPUT or OUTPUT.
unfoldable pub targets_of : FilterType → FilterType → Option Targets
targets_of masq dir = some (accepting dir)
targets_of redirect dir = some (accepting dir)
targets_of t_accept dir = some (accepting dir)
targets_of drop dir = some (refusing (codes "DROP") dir)
targets_of t_reject dir = some (refusing (codes "REJECT") dir)
targets_of f_subgroup dir = some (grouped dir)
targets_of _ dir = none
