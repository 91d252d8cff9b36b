-- ===== src/Gen/Entry.antt =====
-- gen.h and flags.h: the entry that the walk fills, the flags and the callbacks.
use filtergen.Base.{ℕ, Bool, false, Option, none, Text, ◌||◌}
use filtergen.Base.Int.{pos}
use filtergen.Filter.Types.{
  FilterType, yyeof, tag_eq, ProtoSpec, AddrSpec, no_mask, af_other, PortSpec,
}

-- A set of tags: `int whats_set : F_FILTER_MAX`, a bit for each tag below F_FILTER_MAX.
abbrev pub TagSet : Type 0
TagSet = FilterType → Bool

-- `s |= (1 << t)`.
abbrev pub insert_tag : FilterType → TagSet → TagSet
insert_tag t s u = tag_eq u t || s u

-- `struct filterent`. The source address's pointer is null until it is given, and so on.
pub record FilterEnt : Type 0 where
  pub direction : FilterType
  pub iface : Option Text
  pub groupname : Option Text
  pub target : FilterType
  pub subgroup : Option Text
  pub whats_set : TagSet
  pub whats_negated : TagSet
  pub srcaddr : AddrSpec
  pub dstaddr : AddrSpec
  pub rtype : FilterType
  pub proto : ProtoSpec
  pub logmsg : Option Text
  pub oneway : Bool
  pub src : PortSpec
  pub dst : PortSpec
  pub icmp : Option Text
  pub pos : ℕ

-- `memset(&e, 0, sizeof(e))`.
abbrev pub zero_addr : AddrSpec
zero_addr = record { family = af_other 0; mask = no_mask; addrstr = none; maskstr = none }

abbrev pub zero_ports : PortSpec
zero_ports = record { min = pos 0; max = pos 0; minstr = none; maxstr = none }

abbrev pub zero_ent : FilterEnt
zero_ent = record {
  direction = yyeof;
  iface = none;
  groupname = none;
  target = yyeof;
  subgroup = none;
  whats_set = λ _. false;
  whats_negated = λ _. false;
  srcaddr = zero_addr;
  dstaddr = zero_addr;
  rtype = yyeof;
  proto = record { num = pos 0; name = none };
  logmsg = none;
  oneway = false;
  src = zero_ports;
  dst = zero_ports;
  icmp = none;
  pos = 0;
}

-- `enum flags`, each flag a Boolean.
pub record Flags : Type 0 where
  pub noskel : Bool
  pub lstate : Bool
  pub local : Bool
  pub route : Bool
  pub noresolve : Bool
  pub flush : Bool

-- How a function of gen.c ends: it returns a negative number, always -1, or a count of rules, or
-- the program is ended on the way, where the back end calls `abort()` or where a message follows an
-- integer as if it were a string.
pub data Count : Type 0 where
  failed aborted : Count
  rules : ℕ → Count

-- What becomes of the entry at a node: it is filled, or the node is refused with a message and -1.
-- The message of `_NA` prints what the entry has already; where that is an integer and the format
-- says "%s", the integer is followed as a pointer and the program crashes.
pub data Applied : Type 0 where
  refused crashes : Applied
  filled : FilterEnt → Applied

-- A run that writes: the state `S` is what the back end has written and remembers.
abbrev pub Run : Type 0 → Type 0
Run S = S → S × Count

-- `fg_callback` with `fg_misc`: the back end's rule and group functions. The group function may be
-- missing; its result is not looked at.
pub record Callback (S : Type 0) : Type 0 where
  pub rule : FilterEnt → Run S
  pub group : Option (Text → S → S)
  pub flags : Flags
