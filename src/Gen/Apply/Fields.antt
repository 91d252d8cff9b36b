-- ===== src/Gen/Apply/Fields.antt =====
-- Which fields an entry takes twice.
use filtergen.Base.{Bool, true, false, is_set, not, ◌&&◌, List, [], ◌∷◌, ◌≡◌, refl, arith}
use filtergen.Filter.Types.{yyeof, f_dport, f_sport, f_target, f_direction, PortSpec, tag_eq}
use filtergen.Filter.Tree.{
  Leaf, Head, direction, target, source, dest, sport, dport, icmptype, proto, routingtype,
}
use filtergen.Filter.Trails.{Trail, field, step}
use filtergen.Gen.Entry.{
  FilterEnt, failed, aborted, Count, Callback, Applied, refused, crashes, filled,
}
use filtergen.Gen.Apply.{fg_applyone_leaf, note_negation, with_ent}
use filtergen.Gen.Apply.Paths.{run_trail}

-- Conditions that follow each other on a path.
abbrev pub Fields : Type 0
Fields = List (Leaf × Head)

abbrev pub through : Fields → Trail → Trail
through [] t = t
through ((l, h) ∷ more) t = step (field l h) (through more t)

-- What becomes of an entry on the way: the first that is not taken ends it.
abbrev pub then_fill : Applied → (FilterEnt → Applied) → Applied
then_fill refused next = refused
then_fill crashes next = crashes
then_fill (filled e) next = next e

abbrev pub fill : Fields → FilterEnt → Applied
fill [] e = filled e
fill ((l, h) ∷ more) e = then_fill (fg_applyone_leaf l h e) (fill more)

-- How a condition that the entry has already ends the run.
abbrev pub given_twice : Leaf → Count
given_twice (routingtype _) = aborted
given_twice _ = failed

abbrev pub stopped_at : Leaf → Applied → Count
stopped_at m refused = failed
stopped_at m crashes = aborted
stopped_at m (filled _) = given_twice m

-- The entry has what keeps a leaf from being taken: its field or, for a destination port, a source
-- port range.
abbrev bars : Leaf → FilterEnt → Bool
bars (target _) e = e.whats_set f_target
bars (direction _ _) e = e.whats_set f_direction
bars (proto _) e = is_set e.proto.name
bars (source _) e = is_set e.srcaddr.addrstr
bars (dest _) e = is_set e.dstaddr.addrstr
bars (sport _) e = is_set e.src.minstr
bars (dport _) e = is_set e.src.minstr && is_set e.src.maxstr
bars (icmptype _) e = is_set e.icmp
bars (routingtype _) e = not (tag_eq e.rtype yyeof)
bars _ e = false

bars-kept :
    (m l : Leaf) (h : Head) (e e' : FilterEnt)
    → bars m e ≡ true
    → fg_applyone_leaf l h e ≡ filled e'
    → bars m e' ≡ true
unfolding fg_applyone_leaf
bars-kept (target _) _ h e e' p o = ground arith
bars-kept (direction _ _) _ h e e' p o = ground arith
bars-kept (proto _) _ h e e' p o = ground arith
bars-kept (source _) _ h e e' p o = ground arith
bars-kept (dest _) _ h e e' p o = ground arith
bars-kept (sport _) _ h e e' p o = ground arith
bars-kept (dport _) _ h e e' p o = ground arith
bars-kept (icmptype _) _ h e e' p o = ground arith
bars-kept (routingtype _) _ h e e' p o = ground arith
bars-kept _ l h e e' p o = cc

-- The two leaves fill the same field, and the first one leaves a trace in it.
abbrev pub FillsTwice : Leaf → Leaf → Type 0
FillsTwice (target _) (target _) = Unit {0}
FillsTwice (direction _ _) (direction _ _) = Unit {0}
FillsTwice (proto p) (proto _) = is_set p.name ≡ true
FillsTwice (source a) (source _) = is_set a.addrstr ≡ true
FillsTwice (dest a) (dest _) = is_set a.addrstr ≡ true
FillsTwice (sport p) (sport _) = is_set p.minstr ≡ true
FillsTwice (icmptype _) (icmptype _) = Unit {0}
FillsTwice (routingtype r) (routingtype _) = tag_eq r yyeof ≡ false
FillsTwice _ _ = ⊥

filled-bars :
    (l m : Leaf) (h : Head) (e e' : FilterEnt)
    → FillsTwice l m
    → fg_applyone_leaf l h e ≡ filled e'
    → bars m e' ≡ true
unfolding fg_applyone_leaf
filled-bars (target a) (target b) h e e' f o = ground arith
filled-bars (direction a i) (direction b j) h e e' f o = ground arith
filled-bars (proto a) (proto b) h e e' f o = ground arith
filled-bars (source a) (source b) h e e' f o = ground arith
filled-bars (dest a) (dest b) h e e' f o = ground arith
filled-bars (sport a) (sport b) h e e' f o = ground arith
filled-bars (icmptype a) (icmptype b) h e e' f o = ground arith
filled-bars (routingtype a) (routingtype b) h e e' f o = ground arith
filled-bars _ _ h e e' f o = absurd f

second_true : (a b : Bool) → a && b ≡ true → b ≡ true
second_true a b h = ground arith

range-bars :
    (p q : PortSpec) (h : Head) (e e' : FilterEnt)
    → is_set p.minstr ≡ true
    → is_set p.maxstr ≡ true
    → fg_applyone_leaf (sport p) h e ≡ filled e'
    → bars (dport q) e' ≡ true
unfolding fg_applyone_leaf
range-bars p q h e e' l u o = ground arith

barred_with :
    {S : Type 0} (m : Leaf) (k : Head) (e : FilterEnt) (next : FilterEnt → S → S × Count) (s : S)
    → bars m e ≡ true
    → with_ent (fg_applyone_leaf m k e) next s ≡ (s, given_twice m)
unfolding fg_applyone_leaf
barred_with (target _) k e next s h = rw h
barred_with (direction _ _) k e next s h = rw h
barred_with (proto _) k e next s h = rw h
barred_with (source _) k e next s h = rw h
barred_with (dest _) k e next s h = rw h
barred_with (sport _) k e next s h = rw h
barred_with (dport _) k e next s h = rw (second_true (is_set e.src.minstr) (is_set e.src.maxstr) h)
barred_with (icmptype _) k e next s h = rw h
barred_with (routingtype _) k e next s h = rw h
barred_with _ k e next s h = cc

module _ {S : Type 0} (cb : Callback S) (m : Leaf) (k : Head) (t : Trail) where
  barred_stops :
      (e : FilterEnt) (s : S)
      → bars m e ≡ true
      → run_trail cb (step (field m k) t) e s ≡ (s, given_twice m)
  unfolding run_trail
  barred_stops e s h = barred_with m k e (run_trail cb t) s h

  filled_stops :
      (l : Leaf) (h : Head) (between : Fields) (e : FilterEnt) (s : S) (o : Applied)
      → fg_applyone_leaf l h e ≡ o
      → ((e' : FilterEnt)
          → o ≡ filled e'
          → run_trail cb (through between (step (field m k) t)) e' s
            ≡ (s, stopped_at m (fill between e')))
      → run_trail cb (through ((l, h) ∷ between) (step (field m k) t)) e s
        ≡ (s, stopped_at m (then_fill o (fill between)))
  unfolding run_trail
  filled_stops l h between e s refused eq next = rw eq refl
  filled_stops l h between e s crashes eq next = rw eq refl
  filled_stops l h between e s (filled e') eq next = rw eq (next e' refl)

  between_stops :
      (between : Fields) (e : FilterEnt) (s : S)
      → bars m e ≡ true
      → run_trail cb (through between (step (field m k) t)) e s ≡ (s, stopped_at m (fill between e))
  between_stops [] e s b = barred_stops e s b
  between_stops ((l, h) ∷ more) e s b =
      filled_stops l h more e s (fg_applyone_leaf l h e) refl
        (λ e' o. between_stops more e' s (bars-kept m l h e e' b o))

-- A path on which a condition is given again: a target, direction, protocol, address, source port,
-- ICMP type or routing type stands somewhere behind another of its kind, with any conditions
-- between them. For every entry that it comes with, every rest of the path and every back end,
-- nothing is written. If all conditions up to the second one of the kind are taken, the run fails
-- there with -1, and for a second routing type the program crashes; otherwise the run ends the way
-- the first condition does that is not taken.
pub second_field_stops :
    {S : Type 0} (cb : Callback S) (l m : Leaf) (h k : Head) (between : Fields) (t : Trail)
    (e : FilterEnt) (s : S)
    → FillsTwice l m
    → run_trail cb (through ((l, h) ∷ between) (step (field m k) t)) e s
      ≡ (s, stopped_at m (fill ((l, h) ∷ between) e))
second_field_stops cb l m h k between t e s f =
    filled_stops cb m k t l h between e s (fg_applyone_leaf l h e) refl
      (λ e' o. between_stops cb m k t between e' s (filled-bars l m h e e' f o))

-- A path on which a destination port stands somewhere behind a source port range, with any
-- conditions between them: for every entry that it comes with, every rest of the path and every
-- back end, nothing is written. If all conditions up to the destination port are taken, the run
-- fails there with -1; otherwise it ends the way the first condition does that is not taken.
pub sport_range_excludes_dport :
    {S : Type 0} (cb : Callback S) (p q : PortSpec) (h k : Head) (between : Fields) (t : Trail)
    (e : FilterEnt) (s : S)
    → is_set p.minstr ≡ true
    → is_set p.maxstr ≡ true
    → run_trail cb (through ((sport p, h) ∷ between) (step (field (dport q) k) t)) e s
      ≡ (s, stopped_at (dport q) (fill ((sport p, h) ∷ between) e))
sport_range_excludes_dport cb p q h k between t e s l u =
    filled_stops cb (dport q) k t (sport p) h between e s (fg_applyone_leaf (sport p) h e) refl
      (λ e' o. between_stops cb (dport q) k t between e' s (range-bars p q h e e' l u o))

-- With the destination port first, both are taken.
pub dport_then_sport_range :
    (p q : PortSpec) (h k : Head) (e e' : FilterEnt)
    → is_set e.src.minstr ≡ false
    → fg_applyone_leaf (dport q) h e ≡ filled e'
    → (e'' : FilterEnt) × (fg_applyone_leaf (sport p) k e' ≡ filled e'')
      × (e''.dst ≡ q)
      × (e''.src ≡ p)
unfolding fg_applyone_leaf
dport_then_sport_range p q h k e e' m o = (
  note_negation f_sport k (record e' { pos = k.pos; src = p }),
  ground arith,
  ground arith,
  ground arith,
)

-- A second destination port is not refused: as long as the source port has no upper end, it is
-- accepted and takes the place of the first.
pub second_dport_replaces :
    (p q : PortSpec) (h k : Head) (e e' : FilterEnt)
    → is_set e.src.maxstr ≡ false
    → fg_applyone_leaf (dport p) h e ≡ filled e'
    → (e'' : FilterEnt) × (fg_applyone_leaf (dport q) k e' ≡ filled e'') × (e''.dst ≡ q)
unfolding fg_applyone_leaf
second_dport_replaces p q h k e e' m o =
    (note_negation f_dport k (record e' { pos = k.pos; dst = q }), ground arith, ground arith)
