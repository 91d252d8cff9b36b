-- ===== src/Filter/Plain.antt =====
-- filter.c: trees without subgroups and without empty lists of siblings, through the passes.
use filtergen.Base.{true, false, false≢true, ◌≡◌, refl, ◌∙◌}
use filtergen.Base.Outcome.{Returns, returns, Returns-bind, Returns-both}
use filtergen.Filter.Tree.{Filter, null, ptr, Node, Head, leaf, neg, siblings, subgroup}
use filtergen.Filter.Shape.{IsUnrolled, IsUnrolled-ptr, IsNegFree}
use filtergen.Filter.Append.{append_node, append_end, append_each}
use filtergen.Filter.Negation.{filter_neg_expand, marked}
use filtergen.Filter.Negation.Operand.{
  IsOperand, IsNegatable, attached, neg_expand-operand, append-operand, mark-attached,
}
use filtergen.Filter.Targets.{not_null}
use filtergen.Filter.Unroll.{filter_unroll_tree, append_siblings}
use filtergen.Filter.Unroll.Meaning.{unroll-Returns}

abbrev pub IsPlain : Filter → Type 0
IsPlain null = Unit {0}
IsPlain (ptr (leaf l h c) n) = IsPlain c × IsPlain n
IsPlain (ptr (neg s h c) n) = IsPlain s × IsPlain c × IsPlain n
IsPlain (ptr (siblings null h c) n) = ⊥
IsPlain (ptr (siblings (ptr nd m) h c) n) = IsPlain (ptr nd m) × IsPlain c × IsPlain n
IsPlain (ptr (subgroup name s h c) n) = ⊥

-- `f'` is plain, and null only if `f` is.
abbrev StaysPlain : Filter → Filter → Type 0
StaysPlain f f' = IsPlain f' × (not_null f' ≡ not_null f)

pub IsPlain-ptr : (nd : Node) (n : Filter) → IsPlain (ptr nd n) → IsPlain (ptr nd null) × IsPlain n
IsPlain-ptr (leaf l h c) n (pc, pn) = ((pc, tt), pn)
IsPlain-ptr (neg s h c) n (ps, pc, pn) = ((ps, pc, tt), pn)
IsPlain-ptr (siblings null h c) n p = absurd p
IsPlain-ptr (siblings (ptr nd m) h c) n (ps, pc, pn) = ((ps, pc, tt), pn)
IsPlain-ptr (subgroup name s h c) n p = absurd p

IsPlain-of_parts : (nd : Node) (n : Filter) → IsPlain (ptr nd null) → IsPlain n → IsPlain (ptr nd n)
IsPlain-of_parts (leaf l h c) n p pn = (p.0, pn)
IsPlain-of_parts (neg s h c) n p pn = (p.0, p.1, pn)
IsPlain-of_parts (siblings null h c) n p pn = absurd p
IsPlain-of_parts (siblings (ptr nd m) h c) n p pn = (p.0, p.1, pn)
IsPlain-of_parts (subgroup name s h c) n p pn = absurd p

pub siblings-IsPlain :
    (s c n : Filter) (h : Head)
    → not_null s ≡ true
    → IsPlain s
    → IsPlain c
    → IsPlain n
    → IsPlain (ptr (siblings s h c) n)
siblings-IsPlain null c n h e ps pc pn = absurd (false≢true e)
siblings-IsPlain (ptr nd m) c n h e ps pc pn = (ps, pc, pn)

attached-IsPlain :
    (nd : Node) (x n : Filter)
    → IsOperand nd
    → IsPlain x
    → IsPlain n
    → IsPlain (ptr (attached nd x) n)
unfolding attached
attached-IsPlain (leaf l h null) x n o px pn = (px, pn)
attached-IsPlain (siblings (ptr nd null) h null) x n o px pn =
    (attached-IsPlain nd x null o px tt, tt, pn)
attached-IsPlain _ x n o px pn = absurd o

pub neg_expand-IsPlain :
    (f : Filter) → IsNegatable f → IsPlain f → Returns (StaysPlain f) (filter_neg_expand f false)
unfolding filter_neg_expand
neg_expand-IsPlain null o p = returns (tt, refl)
neg_expand-IsPlain (ptr (leaf l h c) n) (oc, on) (pc, pn) =
    Returns-bind (neg_expand-IsPlain c oc pc) λ c' (pc', _).
      Returns-bind (neg_expand-IsPlain n on pn) λ n' (pn', _). returns ((pc', pn'), refl)
neg_expand-IsPlain (ptr (neg null h c) n) o p = absurd o
neg_expand-IsPlain (ptr (neg (ptr nd null) h c) n) (o, oc, on) (ps, pc, pn) =
    Returns-bind (neg_expand-IsPlain c oc pc) λ c' (pc', _).
      Returns-bind (neg_expand-IsPlain n on pn) λ n' (pn', _).
        rw (neg_expand-operand nd o, append-operand nd c' o, mark-attached nd c' o)
          (returns (attached-IsPlain nd c' n' o pc' pn', refl))
neg_expand-IsPlain (ptr (neg (ptr nd (ptr _ _)) h c) n) o p = absurd o
neg_expand-IsPlain (ptr (siblings null h c) n) o p = absurd p
neg_expand-IsPlain (ptr (siblings (ptr nd m) h c) n) (os, oc, on) (ps, pc, pn) =
    Returns-bind (neg_expand-IsPlain c oc pc) λ c' (pc', _).
      Returns-bind (neg_expand-IsPlain n on pn) λ n' (pn', _).
        Returns-bind (neg_expand-IsPlain (ptr nd m) os ps)
          λ s' (ps', e). returns (siblings-IsPlain s' c' n' (marked h false) e ps' pc' pn', refl)
neg_expand-IsPlain (ptr (subgroup name s h c) n) o p = absurd p

mutual
  unfolding append_node

  append_node-IsPlain :
      (nd : Node) (x : Filter)
      → IsPlain (ptr nd null)
      → IsUnrolled (ptr nd null)
      → IsPlain x
      → Returns (λ nd'. IsPlain (ptr nd' null)) (append_node nd x)
  append_node-IsPlain (leaf l h c) x p u px =
      Returns-bind (append_end-IsPlain c x p.0 u.0 px) λ c' pc. returns (pc, tt)
  append_node-IsPlain (neg s h c) x p u px = absurd u
  append_node-IsPlain (siblings null h null) x p u px = absurd p
  append_node-IsPlain (siblings (ptr nd m) h null) x p u px =
      Returns-bind (append_each-IsPlain (ptr nd m) x p.0 u.0 px)
        λ s' (ps, e). returns (siblings-IsPlain s' null null h e ps tt tt)
  append_node-IsPlain (siblings null h (ptr _ _)) x p u px = absurd u
  append_node-IsPlain (siblings (ptr _ _) h (ptr _ _)) x p u px = absurd u
  append_node-IsPlain (subgroup name s h c) x p u px = absurd p

  append_end-IsPlain :
      (f x : Filter) → IsPlain f → IsUnrolled f → IsPlain x → Returns IsPlain (append_end f x)
  append_end-IsPlain null x p u px = returns px
  append_end-IsPlain (ptr nd n) x p u px =
      let (pnd, pn) = IsPlain-ptr nd n p in
      Returns-bind (append_node-IsPlain nd x pnd (IsUnrolled-ptr nd n u).0 px)
        λ nd' pnd'. returns (IsPlain-of_parts nd' n pnd' pn)

  append_each-IsPlain :
      (f x : Filter)
      → IsPlain f
      → IsUnrolled f
      → IsPlain x
      → Returns (StaysPlain f) (append_each f x)
  append_each-IsPlain null x p u px = returns (tt, refl)
  append_each-IsPlain (ptr nd n) x p u px =
      let (pnd, pn) = IsPlain-ptr nd n p in
      let (und, un) = IsUnrolled-ptr nd n u in
      Returns-bind (append_node-IsPlain nd x pnd und px) λ nd' pnd'.
        Returns-bind (append_each-IsPlain n x pn un px)
          λ n' (pn', _). returns (IsPlain-of_parts nd' n' pnd' pn', refl)

append_siblings-IsPlain :
    (s c : Filter)
    → IsPlain s
    → IsUnrolled s
    → IsPlain c
    → Returns (StaysPlain s) (append_siblings s c)
unfolding append_siblings
append_siblings-IsPlain s null p u pc = returns (p, refl)
append_siblings-IsPlain s (ptr nd n) p u pc = append_each-IsPlain s (ptr nd n) p u pc

pub unroll-IsPlain :
    (f : Filter) → IsNegFree f → IsPlain f → Returns (StaysPlain f) (filter_unroll_tree f)
unfolding filter_unroll_tree
unroll-IsPlain null o p = returns (tt, refl)
unroll-IsPlain (ptr (leaf l h c) n) (oc, on) (pc, pn) =
    Returns-bind (unroll-IsPlain c oc pc)
      λ c' (pc', _). Returns-bind (unroll-IsPlain n on pn) λ n' (pn', _). returns ((pc', pn'), refl)
unroll-IsPlain (ptr (neg s h c) n) o p = absurd o
unroll-IsPlain (ptr (siblings null h c) n) o p = absurd p
unroll-IsPlain (ptr (siblings (ptr nd m) h c) n) (os, oc, on) (ps, pc, pn) =
    Returns-bind (unroll-IsPlain c oc pc) λ c' (pc', _).
      Returns-bind (Returns-both (unroll-IsPlain (ptr nd m) os ps) (unroll-Returns (ptr nd m) os))
        λ s' ((ps', e), (us, _)).
          Returns-bind (append_siblings-IsPlain s' c' ps' us pc') λ s'' (ps'', d).
            Returns-bind (unroll-IsPlain n on pn)
              λ n' (pn', _). returns (siblings-IsPlain s'' null n' h (d ∙ e) ps'' tt pn', refl)
unroll-IsPlain (ptr (subgroup name s h c) n) o p = absurd p
