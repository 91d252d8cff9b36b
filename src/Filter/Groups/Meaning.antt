-- ===== src/Filter/Groups/Meaning.antt =====
-- filter.c, `filter_nogroup`: what the tree means without its subgroups.
use filtergen.Base.{Bool, ◌&&◌, ◌||◌, not, ◌≡◌, refl, ap, ap₂}
use filtergen.Filter.Tree.{Filter, null, ptr, Leaf, leaf, neg, siblings, subgroup}
use filtergen.Filter.Packets.{meant, meant_chain}
use filtergen.Filter.Groups.{filter_nogroup}

mutual
  unfolding filter_nogroup meant

  nogroup-meant :
      (v : Leaf → Bool) (f : Filter)
      → (meant v (filter_nogroup f) ≡ meant v f)
        × (meant_chain v (filter_nogroup f) ≡ meant_chain v f)
  nogroup-meant v null = (refl, refl)
  nogroup-meant v (ptr (leaf l h c) n) =
      let head = ap (λ b. v l && b) (nogroup-meant v c).1 in
      (ap₂ ◌||◌ head (nogroup-meant v n).0, head)
  nogroup-meant v (ptr (neg s h c) n) =
      let head = ap (λ b. not (meant_chain v s) && b) (nogroup-meant v c).1 in
      (ap₂ ◌||◌ head (nogroup-meant v n).0, head)
  nogroup-meant v (ptr (siblings s h c) n) =
      let head = ap₂ ◌&&◌ (nogroup-meant v s).0 (nogroup-meant v c).1 in
      (ap₂ ◌||◌ head (nogroup-meant v n).0, head)
  nogroup-meant v (ptr (subgroup name s h c) n) =
      let head = ap₂ ◌&&◌ (nogroup-meant v s).0 (nogroup-meant v c).1 in
      (ap₂ ◌||◌ head (nogroup-meant v n).0, head)

-- A filter without its subgroups means what it meant with them, for every packet.
pub nogroup_keeps_meaning : (v : Leaf → Bool) (f : Filter) → meant v (filter_nogroup f) ≡ meant v f
nogroup_keeps_meaning v f = (nogroup-meant v f).0
