-- ===== src/Gen/Apply/Counting.antt =====
-- The count that a walk returns, against what the back end has written.
use filtergen.Base.{ℕ, zero, suc, ◌+◌, List, [], ◌∷◌, Option, none, some, Text, ◌≡◌, arith}
use filtergen.Filter.Tree.{Filter, null, ptr, Node, Head, leaf, neg, siblings, subgroup}
use filtergen.Gen.Entry.{
  FilterEnt, zero_ent, Count, failed, aborted, rules, Applied, refused, crashes, filled, Run,
  Callback,
}
use filtergen.Gen.Check.{applydefaults, Complaint, checkmatch}
use filtergen.Gen.Apply.{
  fg_applyone_leaf, open_subgroup, fg_finish, unless_complaints, with_ent, then_rest, add_counts,
  unless_result, in_subgroup, fg_apply_node, fg_apply, fg_applylist, filtergen_cprod,
}

-- Where the walk meets a subgroup, `G` holds.
abbrev pub GroupsGive : Type 0 → Filter → Type 0
GroupsGive G null = Unit {0}
GroupsGive G (ptr (leaf l h c) n) = GroupsGive G c × GroupsGive G n
GroupsGive G (ptr (neg s h c) n) = GroupsGive G n
GroupsGive G (ptr (siblings s h c) n) = GroupsGive G s × GroupsGive G c × GroupsGive G n
GroupsGive G (ptr (subgroup name s h c) n) = G × GroupsGive G n

pub GroupsGive-given : {G : Type 0} (g : G) (f : Filter) → GroupsGive G f
GroupsGive-given g null = tt
GroupsGive-given g (ptr (leaf l h c) n) = (GroupsGive-given g c, GroupsGive-given g n)
GroupsGive-given g (ptr (neg s h c) n) = GroupsGive-given g n
GroupsGive-given g (ptr (siblings s h c) n) =
    (GroupsGive-given g s, GroupsGive-given g c, GroupsGive-given g n)
GroupsGive-given g (ptr (subgroup name s h c) n) = (g, GroupsGive-given g n)

pub GroupsGive-never : (G : Type 0) (f : Filter) → GroupsGive ⊥ f → GroupsGive G f
GroupsGive-never G null g = tt
GroupsGive-never G (ptr (leaf l h c) n) (gc, gn) =
    (GroupsGive-never G c gc, GroupsGive-never G n gn)
GroupsGive-never G (ptr (neg s h c) n) g = GroupsGive-never G n g
GroupsGive-never G (ptr (siblings s h c) n) (gs, gc, gn) =
    (GroupsGive-never G s gs, GroupsGive-never G c gc, GroupsGive-never G n gn)
GroupsGive-never G (ptr (subgroup name s h c) n) (g, gn) = absurd g

abbrev GivesAtNode : Type 0 → Node → Type 0
GivesAtNode G nd = GroupsGive G (ptr nd null)

GroupsGive-ptr :
    (G : Type 0) (nd : Node) (n : Filter)
    → GroupsGive G (ptr nd n)
    → GivesAtNode G nd × GroupsGive G n
GroupsGive-ptr G (leaf l h c) n (gc, gn) = ((gc, tt), gn)
GroupsGive-ptr G (neg s h c) n g = (tt, g)
GroupsGive-ptr G (siblings s h c) n (gs, gc, gn) = ((gs, gc, tt), gn)
GroupsGive-ptr G (subgroup name s h c) n (g, gn) = ((g, tt), gn)

module _ {S : Type 0} (size : S → ℕ) where
  -- A run that returns a count has written that much.
  abbrev pub Counted : S → S × Count → Type 0
  Counted s (s', failed) = Unit {0}
  Counted s (s', aborted) = Unit {0}
  Counted s (s', rules n) = size s' ≡ size s + n

  add-Counted :
      (s t : S) (n : ℕ) (x : S × Count)
      → size t ≡ size s + n
      → Counted t x
      → Counted s (add_counts n x)
  add-Counted s t n (u, failed) e c = tt
  add-Counted s t n (u, aborted) e c = tt
  add-Counted s t n (u, rules m) e c = omega arith

  then-Counted :
      (s : S) (x : S × Count) (k : Run S)
      → Counted s x
      → ((t : S) → Counted t (k t))
      → Counted s (then_rest x k)
  then-Counted s (t, failed) k c h = tt
  then-Counted s (t, aborted) k c h = tt
  then-Counted s (t, rules n) k c h = add-Counted s t n (k t) c (h t)

  same_size : (s t : S) (x : S × Count) → size t ≡ size s + 0 → Counted t x → Counted s x
  same_size s t (u, failed) e c = tt
  same_size s t (u, aborted) e c = tt
  same_size s t (u, rules m) e c = omega arith

  result-Counted :
      (s : S) (x : S × Count) (k : Run S)
      → Counted s x
      → ((t : S) → Counted t (k t))
      → Counted s (unless_result x k)
  result-Counted s (t, failed) k c h = tt
  result-Counted s (t, aborted) k c h = tt
  result-Counted s (t, rules zero) k c h = same_size s t (k t) c (h t)
  result-Counted s (t, rules (suc n)) k c h = c

  with-Counted :
      (o : Applied) (k : FilterEnt → Run S) (s : S)
      → ((e : FilterEnt) → Counted s (k e s))
      → Counted s (with_ent o k s)
  with-Counted refused k s h = tt
  with-Counted crashes k s h = tt
  with-Counted (filled e) k s h = h e

  subgroup-Counted :
      (g : Option (Text → S → S)) (name : Text) (h : Head) (inside next : FilterEnt → Run S)
      (e : FilterEnt) (s : S)
      → g ≡ none
      → Counted s (in_subgroup g name h inside next e s)
  subgroup-Counted none name h inside next e s eq = tt
  subgroup-Counted (some g) name h inside next e s eq = cc

  complaints-Counted :
      (found : List Complaint) (k : Run S) (s : S)
      → Counted s (k s)
      → Counted s (unless_complaints found k s)
  complaints-Counted [] k s h = h
  complaints-Counted (_ ∷ _) k s h = tt

  module _ (cb : Callback S) (counts : (e : FilterEnt) (s : S) → Counted s (cb.rule e s)) where
    abbrev NoGroups : Filter → Type 0
    NoGroups = GroupsGive (cb.group ≡ none)

    mutual
      unfolding fg_apply_node fg_finish

      node-Counted :
          (nd : Node) (e : FilterEnt) (s : S)
          → NoGroups (ptr nd null)
          → Counted s (fg_apply_node cb nd e s)
      node-Counted (leaf l h c) e s g =
          with-Counted (fg_applyone_leaf l h e) (fg_apply cb c) s (λ d. chain-Counted c d s g.0)
      node-Counted (neg f h c) e s g = tt
      node-Counted (siblings f h c) e s g =
          result-Counted s (fg_applylist cb f (record e { pos = h.pos }) s)
            (fg_apply cb c (record e { pos = h.pos }))
            (list-Counted f (record e { pos = h.pos }) s g.0)
            (λ t. chain-Counted c (record e { pos = h.pos }) t g.1)
      node-Counted (subgroup name f h c) e s g =
          with-Counted (open_subgroup name h e)
            (in_subgroup cb.group name h (fg_applylist cb f) (fg_apply cb c)) s
            (λ d. subgroup-Counted cb.group name h (fg_applylist cb f) (fg_apply cb c) d s g.0)

      chain-Counted :
          (f : Filter) (e : FilterEnt) (s : S) → NoGroups f → Counted s (fg_apply cb f e s)
      chain-Counted null e s g =
          let whole = applydefaults e cb.flags in
          complaints-Counted (checkmatch whole) (cb.rule whole) s (counts whole s)
      chain-Counted (ptr nd n) e s g = node-Counted nd e s (GroupsGive-ptr _ nd n g).0

      list-Counted :
          (f : Filter) (e : FilterEnt) (s : S) → NoGroups f → Counted s (fg_applylist cb f e s)
      list-Counted null e s g = omega arith
      list-Counted (ptr nd n) e s g =
          let (gnd, gn) = GroupsGive-ptr _ nd n g in
          then-Counted s (fg_apply_node cb nd e s) (fg_applylist cb n e) (node-Counted nd e s gnd)
            (λ t. list-Counted n e t gn)

    pub cprod_over-Counted : (f : Filter) (s : S) → NoGroups f → Counted s (filtergen_cprod cb f s)
    unfolding filtergen_cprod
    cprod_over-Counted f s g = list-Counted f zero_ent s g

    -- For a back end without groups whose rule function returns how much it has written: if
    -- `filtergen_cprod` returns a count, on any tree, that count is what has been written in all.
    pub cprod-Counted : cb.group ≡ none → (f : Filter) (s : S) → Counted s (filtergen_cprod cb f s)
    cprod-Counted groupless f s = cprod_over-Counted f s (GroupsGive-given groupless f)
