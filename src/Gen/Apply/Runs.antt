-- ===== src/Gen/Apply/Runs.antt =====
-- Runs of joined and prefixed paths.
use filtergen.Base.{ℕ, ◌≡◌, refl, sym, ◌∙◌}
use filtergen.Filter.Tree.{Filter, null, ptr, Leaf, Head, leaf, neg, siblings, subgroup}
use filtergen.Filter.Trails.{Trails, field, no_trails, also, join, prefix}
use filtergen.Gen.Entry.{FilterEnt, failed, aborted, Applied, refused, crashes, filled, Callback}
use filtergen.Gen.Apply.{
  fg_applyone_leaf, with_ent, then_rest, open_subgroup, fg_apply_node, fg_applylist,
}
use filtergen.Gen.Apply.Paths.{run_trail, run_trails}
use filtergen.Gen.Apply.Flat.{HasPath}
use filtergen.Gen.Apply.Counts.{add_zero, then_assoc, then_congr}

module _ {S : Type 0} (cb : Callback S) where
  pub run-join :
      (a b : Trails) (e : FilterEnt) (s : S)
      → run_trails cb (join a b) e s ≡ then_rest (run_trails cb a e s) (run_trails cb b e)
  unfolding run_trails join
  run-join no_trails b e s = sym (add_zero (run_trails cb b e s))
  run-join (also t a) b e s =
      then_congr (run_trail cb t e s) (run_trails cb (join a b) e)
        (λ s'. then_rest (run_trails cb a e s') (run_trails cb b e)) (run-join a b e)
      ∙ sym (then_assoc (run_trail cb t e s) (run_trails cb a e) (run_trails cb b e))

  run-prefix-filled :
      (l : Leaf) (h : Head) (ts : Trails) (e e' : FilterEnt) (s : S)
      → fg_applyone_leaf l h e ≡ filled e'
      → run_trails cb (prefix (field l h) ts) e s ≡ run_trails cb ts e' s
  unfolding run_trails prefix
  run-prefix-filled l h no_trails e e' s o = refl
  run-prefix-filled l h (also t ts) e e' s o = rw o (
      then_congr (run_trail cb t e' s) (run_trails cb (prefix (field l h) ts) e)
        (run_trails cb ts e') (λ s'. run-prefix-filled l h ts e e' s' o))

  run-prefix-refused :
      (l : Leaf) (h : Head) (ts : Trails) (e : FilterEnt) (s : S)
      → HasPath ts
      → fg_applyone_leaf l h e ≡ refused
      → run_trails cb (prefix (field l h) ts) e s ≡ (s, failed)
  unfolding run_trails prefix
  run-prefix-refused l h no_trails e s p o = absurd p
  run-prefix-refused l h (also t ts) e s p o = rw o

  run-prefix-crashes :
      (l : Leaf) (h : Head) (ts : Trails) (e : FilterEnt) (s : S)
      → HasPath ts
      → fg_applyone_leaf l h e ≡ crashes
      → run_trails cb (prefix (field l h) ts) e s ≡ (s, aborted)
  unfolding run_trails prefix
  run-prefix-crashes l h no_trails e s p o = absurd p
  run-prefix-crashes l h (also t ts) e s p o = rw o

  run_prefix_as :
      (l : Leaf) (h : Head) (ts : Trails) (e : FilterEnt) (s : S) (o : Applied)
      → HasPath ts
      → fg_applyone_leaf l h e ≡ o
      → run_trails cb (prefix (field l h) ts) e s ≡ with_ent o (run_trails cb ts) s
  run_prefix_as l h ts e s refused p eq = run-prefix-refused l h ts e s p eq
  run_prefix_as l h ts e s crashes p eq = run-prefix-crashes l h ts e s p eq
  run_prefix_as l h ts e s (filled e') p eq = run-prefix-filled l h ts e e' s eq

  pub run-prefix :
      (l : Leaf) (h : Head) (ts : Trails) (e : FilterEnt) (s : S)
      → HasPath ts
      → run_trails cb (prefix (field l h) ts) e s
        ≡ with_ent (fg_applyone_leaf l h e) (run_trails cb ts) s
  run-prefix l h ts e s p = run_prefix_as l h ts e s (fg_applyone_leaf l h e) p refl

  -- The position is set anew at each node, so a list does not see that of its parent.
  pub pos_irrelevant :
      (f : Filter) (e : FilterEnt) (p : ℕ) (s : S)
      → fg_applylist cb f (record e { pos = p }) s ≡ fg_applylist cb f e s
  unfolding fg_applylist fg_applyone_leaf open_subgroup
  pos_irrelevant null e p s = refl
  pos_irrelevant (ptr (leaf l h c) n) e p s =
      then_congr (fg_apply_node cb (leaf l h c) e s) _ _ (pos_irrelevant n e p)
  pos_irrelevant (ptr (neg f h c) n) e p s =
      then_congr (fg_apply_node cb (neg f h c) e s) _ _ (pos_irrelevant n e p)
  pos_irrelevant (ptr (siblings f h c) n) e p s =
      then_congr (fg_apply_node cb (siblings f h c) e s) _ _ (pos_irrelevant n e p)
  pos_irrelevant (ptr (subgroup name f h c) n) e p s =
      then_congr (fg_apply_node cb (subgroup name f h c) e s) _ _ (pos_irrelevant n e p)
