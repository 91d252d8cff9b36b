-- ===== src/Gen/Apply/Safety.antt =====
-- What reaches the back end, on any tree.
use filtergen.Base.{ℕ, zero, suc, List, [], ◌∷◌, Option, none, some, Text, ◌≡◌, refl}
use filtergen.Filter.Types.{f_subgroup}
use filtergen.Filter.Tree.{Filter, null, ptr, Node, Head, leaf, neg, siblings, subgroup}
use filtergen.Gen.Entry.{
  FilterEnt, zero_ent, Count, failed, aborted, rules, Applied, refused, crashes, filled, Run,
  Callback,
}
use filtergen.Gen.Check.{applydefaults, Complaint, checkmatch}
use filtergen.Gen.Check.Complete.{IsComplete, checkmatch-IsComplete}
use filtergen.Gen.Apply.{
  fg_applyone_leaf, open_subgroup, fg_finish, unless_complaints, with_ent, then_rest, add_counts,
  unless_result, unless_failed, group_ent, note_negation, in_subgroup, fg_apply_node, fg_apply,
  fg_applylist, filtergen_cprod,
}

-- `P` is what the back end's functions keep, the rule function on complete entries only.
module _ {S : Type 0} (P : S → Type 0) where
  pub record Keeps (cb : Callback S) : Type 0 where
    pub rule_keeps : (e : FilterEnt) (s : S) → IsComplete e → P s → P (cb.rule e s).0
    pub group_keeps :
        (g : Text → S → S) → cb.group ≡ some g → (name : Text) (s : S) → P s → P (g name s)

  add_keeps : (n : ℕ) (x : S × Count) → P x.0 → P (add_counts n x).0
  add_keeps n (s, failed) p = p
  add_keeps n (s, aborted) p = p
  add_keeps n (s, rules m) p = p

  then_keeps :
      (x : S × Count) (k : Run S) → P x.0 → ((s : S) → P s → P (k s).0) → P (then_rest x k).0
  then_keeps (s, failed) k p h = p
  then_keeps (s, aborted) k p h = p
  then_keeps (s, rules n) k p h = add_keeps n (k s) (h s p)

  result_keeps :
      (x : S × Count) (k : Run S) → P x.0 → ((s : S) → P s → P (k s).0) → P (unless_result x k).0
  result_keeps (s, failed) k p h = p
  result_keeps (s, aborted) k p h = p
  result_keeps (s, rules zero) k p h = h s p
  result_keeps (s, rules (suc n)) k p h = p

  failed_keeps :
      (x : S × Count) (k : Run S) → P x.0 → ((s : S) → P s → P (k s).0) → P (unless_failed x k).0
  failed_keeps (s, failed) k p h = p
  failed_keeps (s, aborted) k p h = p
  failed_keeps (s, rules n) k p h = h s p

  with_keeps :
      (o : Applied) (k : FilterEnt → Run S) (s : S)
      → P s
      → ((e : FilterEnt) → P (k e s).0)
      → P (with_ent o k s).0
  with_keeps refused k s p h = p
  with_keeps crashes k s p h = p
  with_keeps (filled e) k s p h = h e

  module _ (cb : Callback S) (keeps : Keeps cb) where
    complaints_keep :
        (e : FilterEnt) (found : List Complaint) (s : S)
        → checkmatch e ≡ found
        → P s
        → P (unless_complaints found (cb.rule e) s).0
    complaints_keep e [] s h p = keeps.rule_keeps e s (checkmatch-IsComplete e h) p
    complaints_keep e (_ ∷ _) s h p = p

    finish_keeps : (e : FilterEnt) (s : S) → P s → P (fg_finish cb e s).0
    unfolding fg_finish
    finish_keeps e s p =
        let whole = applydefaults e cb.flags in complaints_keep whole (checkmatch whole) s refl p

    subgroup_keeps :
        (g : Option (Text → S → S)) (name : Text) (h : Head) (inside next : FilterEnt → Run S)
        (e : FilterEnt) (s : S)
        → cb.group ≡ g
        → P s
        → ((d : FilterEnt) (u : S) → P u → P (inside d u).0)
        → ((d : FilterEnt) (u : S) → P u → P (next d u).0)
        → P (in_subgroup g name h inside next e s).0
    subgroup_keeps none name h inside next e s eq p hi hn = p
    subgroup_keeps (some g) name h inside next e s eq p hi hn =
        failed_keeps (inside (group_ent name e) (g name s)) (next (note_negation f_subgroup h e))
          (hi (group_ent name e) (g name s) (keeps.group_keeps g eq name s p))
          (hn (note_negation f_subgroup h e))

    mutual
      unfolding fg_apply_node

      node_keeps : (nd : Node) (e : FilterEnt) (s : S) → P s → P (fg_apply_node cb nd e s).0
      node_keeps (leaf l h c) e s p =
          with_keeps (fg_applyone_leaf l h e) (fg_apply cb c) s p (λ d. chain_keeps c d s p)
      node_keeps (neg f h c) e s p = p
      node_keeps (siblings f h c) e s p =
          result_keeps (fg_applylist cb f (record e { pos = h.pos }) s)
            (fg_apply cb c (record e { pos = h.pos })) (list_keeps f (record e { pos = h.pos }) s p)
            (chain_keeps c (record e { pos = h.pos }))
      node_keeps (subgroup name f h c) e s p =
          with_keeps (open_subgroup name h e)
            (in_subgroup cb.group name h (fg_applylist cb f) (fg_apply cb c)) s p
            (λ d.
              subgroup_keeps cb.group name h (fg_applylist cb f) (fg_apply cb c) d s refl p
                (λ d' u q. list_keeps f d' u q) (λ d' u q. chain_keeps c d' u q))

      chain_keeps : (f : Filter) (e : FilterEnt) (s : S) → P s → P (fg_apply cb f e s).0
      chain_keeps null e s p = finish_keeps e s p
      chain_keeps (ptr nd n) e s p = node_keeps nd e s p

      list_keeps : (f : Filter) (e : FilterEnt) (s : S) → P s → P (fg_applylist cb f e s).0
      list_keeps null e s p = p
      list_keeps (ptr nd n) e s p =
          then_keeps (fg_apply_node cb nd e s) (fg_applylist cb n e) (node_keeps nd e s p)
            (λ u q. list_keeps n e u q)

    -- On every tree, whether or not it was unrolled and whatever `filtergen_cprod` returns: the back
    -- end's rule function is only called on complete entries. So whatever its functions keep on
    -- those holds of what it has written at the end.
    pub cprod_keeps : (f : Filter) (s : S) → P s → P (filtergen_cprod cb f s).0
    unfolding filtergen_cprod
    cprod_keeps f s p = list_keeps f zero_ent s p
