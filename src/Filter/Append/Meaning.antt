-- ===== src/Filter/Append/Meaning.antt =====
-- filter.c, `filter_append`: the paths of a tree after appending.
use filtergen.Base.{◌≡◌, refl, ap, ap₂}
use filtergen.Base.Outcome.{Returns, returns, Returns-bind}
use filtergen.Filter.Tree.{Filter, null, ptr, Node, leaf, neg, siblings, subgroup}
use filtergen.Filter.Shape.{IsUnrolled, IsUnrolledNode, IsUnrolled-ptr, IsUnrolled-of_parts}
use filtergen.Filter.Append.{append_node, append_end, append_each, filter_append}
use filtergen.Filter.Trails.{Trails, join, prefix, field, enter, routes, after, across, only_done}

abbrev pub AppendedNode : Node → Filter → Node → Type 0
AppendedNode nd x nd' =
    IsUnrolledNode nd' × ((rest : Trails) → routes nd' rest ≡ routes nd (after x rest))

abbrev pub AppendedEnd : Filter → Filter → Filter → Type 0
AppendedEnd f x f' = IsUnrolled f' × ((rest : Trails) → after f' rest ≡ after f (after x rest))

abbrev pub AppendedEach : Filter → Filter → Filter → Type 0
AppendedEach f x f' = IsUnrolled f' × ((rest : Trails) → across f' rest ≡ across f (after x rest))

mutual
  unfolding append_node routes

  append_node-Returns :
      (nd : Node) (x : Filter)
      → IsUnrolledNode nd
      → IsUnrolled x
      → Returns (AppendedNode nd x) (append_node nd x)
  append_node-Returns (leaf l h c) x u ux =
      Returns-bind (append_end-Returns c x u.0 ux)
        λ c' (u', e). returns ((u', tt), λ rest. ap (prefix (field l h)) (e rest))
  append_node-Returns (neg s h c) x u ux = absurd u
  append_node-Returns (siblings s h null) x u ux =
      Returns-bind (append_each-Returns s x u.0 ux) λ s' (u', e). returns ((u', tt), e)
  append_node-Returns (siblings s h (ptr _ _)) x u ux = absurd u
  append_node-Returns (subgroup name s h c) x u ux =
      Returns-bind (append_end-Returns c x u.1 ux) λ c' (u', e).
        returns ((u.0, u', tt), λ rest. ap (prefix (enter name h (across s only_done))) (e rest))

  append_end-Returns :
      (f x : Filter) → IsUnrolled f → IsUnrolled x → Returns (AppendedEnd f x) (append_end f x)
  append_end-Returns null x u ux = returns (ux, λ rest. refl)
  append_end-Returns (ptr nd n) x u ux =
      let (und, un) = IsUnrolled-ptr nd n u in
      Returns-bind (append_node-Returns nd x und ux)
        λ nd' (u', e). returns (IsUnrolled-of_parts nd' n u' un, e)

  append_each-Returns :
      (f x : Filter) → IsUnrolled f → IsUnrolled x → Returns (AppendedEach f x) (append_each f x)
  append_each-Returns null x u ux = returns (tt, λ rest. refl)
  append_each-Returns (ptr nd n) x u ux =
      let (und, un) = IsUnrolled-ptr nd n u in
      Returns-bind (append_node-Returns nd x und ux) λ nd' (u', e).
        Returns-bind (append_each-Returns n x un ux) λ n' (v', d).
          returns (IsUnrolled-of_parts nd' n' u' v', λ rest. ap₂ join (e rest) (d rest))

-- Appending a filter to an unrolled, non-empty tree returns, the result is unrolled, and each path
-- of the old tree goes on into the paths of what is appended.
pub filter_append-Returns :
    (nd : Node) (n x : Filter)
    → IsUnrolled (ptr nd n)
    → IsUnrolled x
    → Returns (AppendedEnd (ptr nd n) x) (filter_append (ptr nd n) x)
unfolding filter_append routes
filter_append-Returns nd n null u ux = returns (u, λ rest. refl)
filter_append-Returns nd n (ptr x x_next) u ux = append_end-Returns (ptr nd n) (ptr x x_next) u ux

pub append_each_meaning :
    (f x : Filter) → IsUnrolled f → IsUnrolled x → Returns (AppendedEach f x) (append_each f x)
append_each_meaning = append_each-Returns

pub append_node_meaning :
    (nd : Node) (x : Filter)
    → IsUnrolledNode nd
    → IsUnrolled x
    → Returns (AppendedNode nd x) (append_node nd x)
append_node_meaning = append_node-Returns
