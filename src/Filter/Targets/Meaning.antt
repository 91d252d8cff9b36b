-- ===== src/Filter/Targets/Meaning.antt =====
-- filter.c, `__filter_targets_to_end` on a rule that begins with its target.
use filtergen.Base.{Bool, true, false, ◌&&◌, ◌≡◌, refl, ap, ◌∙◌, sym}
use filtergen.Base.Outcome.{ok, Returns-ok}
use filtergen.Filter.Tree.{Filter, null, ptr, Node, Leaf, Head, leaf}
use filtergen.Filter.Shape.{IsUnrolled, IsUnrolled-ptr}
use filtergen.Filter.Append.{filter_append, append_node}
use filtergen.Filter.Append.Meaning.{append_node_meaning}
use filtergen.Filter.Trails.{Trails, prefix, field, routes, only_done}
use filtergen.Filter.Packets.{selects, selects_step, selects-prefix}
use filtergen.Filter.Factor.{routes_factor}
use filtergen.Filter.Targets.{is_target, filter_targets_to_end}

and_left_comm : (a b c : Bool) → (a && (b && c)) ≡ (b && (a && c))
and_left_comm true true c = refl
and_left_comm true false c = refl
and_left_comm false true c = refl
and_left_comm false false c = refl

leading_target_moves :
    (l : Leaf) (h : Head) (nd : Node) (next n : Filter) (nd' : Node)
    → is_target l ≡ true
    → append_node nd (ptr (leaf l h null) n) ≡ ok nd'
    → filter_targets_to_end (ptr (leaf l h (ptr nd next)) n) ≡ ok (ptr nd' next)
unfolding filter_targets_to_end filter_append append_node
leading_target_moves l h nd next n nd' t e = rw (t, e)

-- A leading target with a chain behind it loses the rules that stand next to it: the result's
-- first node has the paths of the chain with the target at their end, and what comes next is what
-- stood next to the chain, not what stood next to the target.
pub leading_target_drops :
    (l : Leaf) (h : Head) (nd : Node) (next n : Filter)
    → is_target l ≡ true
    → IsUnrolled (ptr nd next)
    → IsUnrolled n
    → (nd' : Node) × (filter_targets_to_end (ptr (leaf l h (ptr nd next)) n) ≡ ok (ptr nd' next))
      × ((rest : Trails) → routes nd' rest ≡ routes nd (prefix (field l h) rest))
unfolding routes
leading_target_drops l h nd next n t u un =
    let moved : Filter = ptr (leaf l h null) n in
    let (nd', e, (_, same)) =
      Returns-ok (append_node_meaning nd moved (IsUnrolled-ptr nd next u).0 (tt, un)) in
    (nd', leading_target_moves l h nd next n nd' t e, same)

-- A leading target that is moved behind its chain still selects the same packets: the first node
-- of the result and the target with its chain agree, whatever follows them.
pub leading_target_selects :
    (v : Leaf → Bool) (l : Leaf) (h : Head) (nd : Node) (next n : Filter) (rest : Trails)
    → is_target l ≡ true
    → IsUnrolled (ptr nd next)
    → IsUnrolled n
    → (nd' : Node) × (filter_targets_to_end (ptr (leaf l h (ptr nd next)) n) ≡ ok (ptr nd' next))
      × (selects v (routes nd' rest) ≡ selects v (routes (leaf l h (ptr nd next)) rest))
unfolding routes
leading_target_selects v l h nd next n rest t u un =
    let (nd', e, same) = leading_target_drops l h nd next n t u un in
    let behind =
      ap (selects v) (same rest)
      ∙ routes_factor v nd (prefix (field l h) rest)
      ∙ ap (λ b. selects v (routes nd only_done) && b) (selects-prefix v (field l h) rest) in
    let front =
      selects-prefix v (field l h) (routes nd rest)
      ∙ ap (λ b. selects_step v (field l h) && b) (routes_factor v nd rest) in
    (
      nd',
      e,
      behind
          ∙ and_left_comm (selects v (routes nd only_done)) (selects_step v (field l h))
              (selects v rest)
          ∙ sym front,
    )
