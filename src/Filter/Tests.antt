-- ===== src/Filter/Tests.antt =====
-- Rules written out as trees, and the theorems on filter.c at them.
use filtergen.Base.{ℕ, Bool, false, true, ◌≡◌, refl, some, none, [], Text, codes}
use filtergen.Base.Int.{pos}
use filtergen.Base.Outcome.{ok}
use filtergen.Filter.Types.{input, t_accept, af_inet, no_mask}
use filtergen.Filter.Tree.{
  Filter, null, ptr, Leaf, Head, leaf, neg, siblings, direction, target, source,
}
use filtergen.Filter.Shape.{IsNegFree, IsUnrolled}
use filtergen.Filter.Trails.{trails}
use filtergen.Filter.Packets.{meant, selects}
use filtergen.Filter.Build.{Libc}
use filtergen.Filter.Build.Hosts.{LacksByte}
use filtergen.Filter.Negation.{filter_neg_expand}
use filtergen.Filter.Negation.Meaning.{neg_expand-meaning}
use filtergen.Filter.Unroll.{filter_unroll_tree}
use filtergen.Filter.Unroll.Meaning.{unroll-trails}
use filtergen.Filter.Targets.{filter_unroll}
use filtergen.Filter.Targets.Steady.{filter_unroll-meaning}

abbrev line : Head
line = record { negate = false; pos = 1 }

abbrev from : Text → Leaf
from s = source (record { family = af_inet; mask = no_mask; addrstr = some s; maskstr = none })

abbrev office : Leaf
office = from (codes "10.0.0.1")

abbrev outside : Leaf
outside = from (codes "192.0.2.7")

abbrev accepted : Filter
accepted = ptr (leaf (target t_accept) line null) null

-- input eth0 { source 10.0.0.1; source 192.0.2.7 } accept;
abbrev either_source : Filter
either_source = ptr (leaf office line null) (ptr (leaf outside line null) null)

abbrev policy : Filter
policy =
    ptr
      (leaf (direction input (codes "eth0")) line (ptr (siblings either_source line accepted) null))
      null

-- input eth0 { source 10.0.0.1; ! source 192.0.2.7 } accept;
abbrev policy_with_neg : Filter
policy_with_neg =
    ptr
      (leaf (direction input (codes "eth0")) line (
        ptr
          (siblings
            (ptr (leaf office line null)
              (ptr (neg (ptr (leaf outside line null) null) line null) null))
            line accepted)
          null))
      null

abbrev is_office : Leaf → Bool
is_office (source a) = true
is_office _ = false

filter_unroll-meaning_example :
    (f' : Filter) × (filter_unroll policy_with_neg ≡ ok f')
    × IsUnrolled f'
    × ((v : Leaf → Bool) → selects v (trails f') ≡ meant v policy_with_neg)
filter_unroll-meaning_example =
    filter_unroll-meaning policy_with_neg ((((tt, (tt, tt, tt)), (tt, tt), tt), tt))
      ((refl, ((refl, tt, tt), tt), tt))

unroll-trails_example :
    (f' : Filter) × (filter_unroll_tree policy ≡ ok f')
    × IsUnrolled f'
    × (trails f' ≡ trails policy)
unroll-trails_example = unroll-trails policy ((((tt, (tt, tt)), (tt, tt), tt), tt))

neg_expand-meaning_example :
    (f' : Filter) × (filter_neg_expand policy_with_neg false ≡ ok f')
    × IsNegFree f'
    × ((v : Leaf → Bool) → selects v (trails f') ≡ meant v policy_with_neg)
neg_expand-meaning_example =
    neg_expand-meaning policy_with_neg ((((tt, (tt, tt, tt)), (tt, tt), tt), tt))

-- A library that reads every number as 24, or as 40.
abbrev reads : ℕ → Libc
reads n = record {
  strtol = λ _. (pos n, []);
  getprotobynumber = λ _. none;
  getprotobyname = λ _. none;
  getservbyname = λ _. none;
  inet_aton = λ _. none;
  inet_ntoa = λ _. codes "255.255.255.0";
  print_int = λ _. codes "24";
}

no_slash : LacksByte b'/' (codes "10.0.0.0")
no_slash = (refl, (refl, (refl, (refl, (refl, (refl, (refl, (refl, tt))))))))
