-- ===== src/Output/Tests.antt =====
-- Entries written out, and the theorems on the back ends at them.
use filtergen.Base.{false, some, [], codes, length}
use filtergen.Base.Int.{pos}
use filtergen.Filter.Types.{input, t_accept, f_sport}
use filtergen.Filter.Tree.{Filter, null, ptr, Head, leaf, direction, target}
use filtergen.Gen.Entry.{FilterEnt, zero_ent, insert_tag, Flags}
use filtergen.Gen.Apply.{filtergen_cprod}
use filtergen.Gen.Apply.Counting.{Counted}
use filtergen.Output.Cisco.{cb_cisco}
use filtergen.Output.Cisco.Rules.{cisco-Counted}

abbrev plain_flags : Flags
plain_flags = record {
  noskel = false;
  lstate = false;
  local = false;
  route = false;
  noresolve = false;
  flush = false;
}

abbrev line : Head
line = record { negate = false; pos = 1 }

-- input eth0 accept;
abbrev policy : Filter
policy =
    ptr (leaf (direction input (codes "eth0")) line (ptr (leaf (target t_accept) line null) null))
      null

abbrev entry : FilterEnt
entry = record zero_ent { direction = input; iface = some (codes "eth0"); target = t_accept }

-- input eth0 proto tcp ! sport 1024:2048 accept;
abbrev ranged : FilterEnt
ranged = record entry {
  proto = record { num = pos 6; name = some (codes "tcp") };
  src = record {
    min = pos 1024;
    max = pos 2048;
    minstr = some (codes "1024");
    maxstr = some (codes "2048");
  };
  whats_negated = insert_tag f_sport (λ _. false);
}

cisco-Counted_example : Counted length [] (filtergen_cprod (cb_cisco plain_flags) policy [])
cisco-Counted_example = cisco-Counted plain_flags policy []
