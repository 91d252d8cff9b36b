-- ===== src/Output/Ipchains/Choice.antt =====
-- output/ipchains/fg-ipchains.c, the chains and targets that the two switches choose.
use filtergen.Base.{Option, none, some, Text, codes, if◌then◌else◌}
use filtergen.Filter.Types.{
  FilterType, input, output, t_accept, drop, t_reject, masq, redirect, f_subgroup, tag_eq,
}

pub record Chains : Type 0 where
  pub rule : Text
  pub rev : Text
  pub fwd : Text
  pub fwd_rev : Text

-- The switch on the direction.
unfoldable pub chains_of : FilterType → FilterType → Option Chains
chains_of t input = some (record {
  rule = codes "input";
  rev = codes "output";
  fwd = codes "forward";
  fwd_rev = codes "forw_out";
})
chains_of t output = some (record {
  rule = if tag_eq t masq then codes "forw_out" else codes "output";
  rev = codes "input";
  fwd = codes "forw_out";
  fwd_rev = codes "forward";
})
chains_of t _ = none

-- The switch on the target, for a direction that is INPUT or OUTPUT: each a string or null.
pub record Targets : Type 0 where
  pub rule : Text
  pub rev : Option Text
  pub fwd : Option Text
  pub fwd_rev : Option Text

abbrev pub accepting : FilterType → Targets
accepting input = record {
  rule = codes "ACCEPT";
  rev = some (codes "ACCEPT");
  fwd = some (codes "forw_out");
  fwd_rev = some (codes "ACCEPT");
}
accepting _ = record {
  rule = codes "ACCEPT";
  rev = some (codes "ACCEPT");
  fwd = some (codes "ACCEPT");
  fwd_rev = some (codes "forw_out");
}

abbrev pub refusing : Text → Targets
refusing word = record { rule = word; rev = none; fwd = some word; fwd_rev = none }

abbrev pub translating : Text → Targets
translating word = record { rule = word; rev = some (codes "ACCEPT"); fwd = none; fwd_rev = none }

abbrev pub grouped : FilterType → Targets
grouped input = record {
  rule = codes "input";
  rev = some (codes "output");
  fwd = some (codes "forward");
  fwd_rev = some (codes "forw_out");
}
grouped _ = record {
  rule = codes "output";
  rev = some (codes "input");
  fwd = some (codes "forw_out");
  fwd_rev = some (codes "forward");
}

unfoldable pub targets_of : FilterType → FilterType → Option Targets
targets_of t_accept dir = some (accepting dir)
targets_of drop dir = some (refusing (codes "DENY"))
targets_of t_reject dir = some (refusing (codes "REJECT"))
targets_of masq dir = some (translating (codes "MASQ"))
targets_of redirect dir = some (translating (codes "REDIRECT"))
targets_of f_subgroup dir = some (grouped dir)
targets_of _ dir = none
