-- ===== src/Filter/Negation/Limits.antt =====
-- What `__filter_neg_expand` does with a negation over more than one leaf.
use filtergen.Base.{Bool, false, ◌&&◌, not, ◌≡◌, refl, arith}
use filtergen.Base.Outcome.{ok, fault, negated_conjunction, corrupt_siblings}
use filtergen.Filter.Tree.{Filter, null, ptr, Node, Leaf, Head, leaf, neg, siblings}
use filtergen.Filter.Append.{filter_append, append_node}
use filtergen.Filter.Trails.{trails, join, prefix}
use filtergen.Filter.Packets.{meant, meant_node, selects}
use filtergen.Filter.Negation.{filter_neg_expand}
use filtergen.Filter.Negation.Operand.{IsNegatable}
use filtergen.Filter.Negation.Meaning.{neg_expand-meaning}

-- The negation of a list of two or more siblings stops the program, whatever the siblings are and
-- whatever follows the negation, if that itself can be expanded.
pub negated_alternatives_exit :
    (first : Node) (second : Node) (others c n : Filter) (h k : Head)
    → IsNegatable c
    → IsNegatable n
    → filter_neg_expand
        (ptr (neg (ptr (siblings (ptr first (ptr second others)) h null) null) k c) n)
        false
      ≡ fault negated_conjunction
unfolding filter_neg_expand
negated_alternatives_exit first second others c n h k oc on =
    let (c', ec, _, _) = neg_expand-meaning c oc in
    let (n', en, _, _) = neg_expand-meaning n on in rw (ec, en)

abbrev pub negated_pair : Leaf → Leaf → Head → Filter
negated_pair a b h =
    ptr (neg (ptr (siblings (ptr (leaf a h (ptr (leaf b h null) null)) null) h null) null) h null)
      null

-- A negated list with one chain of two leaves in it, `! { a b }`, is expanded without complaint:
-- the paths of the result select a packet when it fails both leaves, although the parsed tree means
-- the packets that do not pass both.
pub negated_pair-selects :
    (a b : Leaf) (h : Head)
    → (f' : Filter) × (filter_neg_expand (negated_pair a b h) false ≡ ok f')
      × ((v : Leaf → Bool) → selects v (trails f') ≡ (not (v a) && not (v b)))
      × ((v : Leaf → Bool) → meant v (negated_pair a b h) ≡ not (v a && v b))
unfolding filter_neg_expand filter_append trails meant_node selects join prefix
negated_pair-selects a b h = (_, refl, (λ v. ground arith), λ v. ground arith)

-- `! { list rest } t`, where `list` is a list of siblings with something behind it.
abbrev pub negated_nested : Leaf → Leaf → Leaf → Head → Filter
negated_nested a b t h =
    ptr
      (neg
        (ptr
          (siblings (ptr (siblings (ptr (leaf a h null) null) h (ptr (leaf b h null) null)) null) h
            null)
          null)
        h (ptr (leaf t h null) null))
      null

-- A negated block in which a list of siblings is followed by a condition, with anything behind the
-- block, aborts the program for all leaves: the rest of the rule is hung below a list of siblings
-- that has not been unrolled.
pub negated_nested_aborts :
    (a b t : Leaf) (h : Head)
    → filter_neg_expand (negated_nested a b t h) false ≡ fault corrupt_siblings
unfolding filter_neg_expand filter_append append_node
negated_nested_aborts a b t h = refl
