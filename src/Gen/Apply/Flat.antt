-- ===== src/Gen/Apply/Flat.antt =====
-- The trees that gen.c walks.
use filtergen.Base.{◌≡◌, ◌≢◌, refl, ap}
use filtergen.Filter.Tree.{Filter, null, ptr, Node, leaf, neg, siblings, subgroup}
use filtergen.Filter.Trails.{
  Trails, Trail, Step, field, enter, done, step, only_done, no_trails, also, join, prefix, routes,
  after, across,
}

-- A chain of leaves.
abbrev pub IsStraight : Filter → Type 0
IsStraight null = Unit {0}
IsStraight (ptr (leaf l h c) n) = IsStraight c
IsStraight (ptr _ n) = ⊥

-- Unrolled, with no empty list of siblings, and with nothing but single conditions behind a
-- subgroup. With a list of siblings there, a walk would open the group once, before it comes to the
-- alternatives; with another subgroup there, the walk crashes at that one.
abbrev pub IsFlat : Filter → Type 0
IsFlat null = Unit {0}
IsFlat (ptr (leaf l h c) n) = IsFlat c × IsFlat n
IsFlat (ptr (neg f h c) n) = ⊥
IsFlat (ptr (siblings (ptr nd m) h null) n) = IsFlat (ptr nd m) × IsFlat n
IsFlat (ptr (siblings _ h _) n) = ⊥
IsFlat (ptr (subgroup name f h c) n) = IsFlat f × IsStraight c × IsFlat n

abbrev pub IsFlatNode : Node → Type 0
IsFlatNode nd = IsFlat (ptr nd null)

pub IsFlat-ptr : (nd : Node) (n : Filter) → IsFlat (ptr nd n) → IsFlatNode nd × IsFlat n
IsFlat-ptr (leaf l h c) n (fc, fn) = ((fc, tt), fn)
IsFlat-ptr (neg s h c) n u = absurd u
IsFlat-ptr (siblings (ptr nd m) h null) n (fs, fn) = ((fs, tt), fn)
IsFlat-ptr (siblings null h null) n u = absurd u
IsFlat-ptr (siblings null h (ptr _ _)) n u = absurd u
IsFlat-ptr (siblings (ptr nd m) h (ptr _ _)) n u = absurd u
IsFlat-ptr (subgroup name s h c) n (fs, sc, fn) = ((fs, sc, tt), fn)

-- Behind a chain of leaves there is one path.
pub straight-after :
    (c : Filter) → IsStraight c → (t : Trail) × (after c (also done no_trails) ≡ also t no_trails)
unfolding routes prefix
straight-after null u = (done, refl)
straight-after (ptr (leaf l h c) n) u =
    let (t, e) = straight-after c u in (step (field l h) t, ap (prefix (field l h)) e)
straight-after (ptr (neg s h c) n) u = absurd u
straight-after (ptr (siblings s h c) n) u = absurd u
straight-after (ptr (subgroup name s h c) n) u = absurd u

abbrev pub HasPath : Trails → Type 0
HasPath no_trails = ⊥
HasPath (also t ts) = Unit {0}

HasPath-join : (s t : Trails) → HasPath s → HasPath (join s t)
unfolding join
HasPath-join no_trails t h = absurd h
HasPath-join (also x s) t h = tt

HasPath-prefix : (x : Step) (t : Trails) → HasPath t → HasPath (prefix x t)
unfolding prefix
HasPath-prefix x no_trails h = absurd h
HasPath-prefix x (also y t) h = tt

mutual
  unfolding routes

  HasPath-routes :
      (nd : Node) (rest : Trails) → IsFlatNode nd → HasPath rest → HasPath (routes nd rest)
  HasPath-routes (leaf l h c) rest f p =
      HasPath-prefix (field l h) (after c rest) (HasPath-after c rest f.0 p)
  HasPath-routes (neg s h c) rest f p = absurd f
  HasPath-routes (siblings (ptr nd m) h null) rest f p = HasPath-across (ptr nd m) rest f.0 p (cc)
  HasPath-routes (siblings null h null) rest f p = absurd f
  HasPath-routes (siblings null h (ptr _ _)) rest f p = absurd f
  HasPath-routes (siblings (ptr nd m) h (ptr _ _)) rest f p = absurd f
  HasPath-routes (subgroup name s h c) rest f p =
      HasPath-prefix (enter name h (across s only_done)) (after c rest)
        (HasPath-straight c rest f.1 p)

  pub HasPath-straight :
      (f : Filter) (rest : Trails) → IsStraight f → HasPath rest → HasPath (after f rest)
  HasPath-straight null rest f p = p
  HasPath-straight (ptr (leaf l h c) n) rest f p =
      HasPath-prefix (field l h) (after c rest) (HasPath-straight c rest f p)
  HasPath-straight (ptr (neg s h c) n) rest f p = absurd f
  HasPath-straight (ptr (siblings s h c) n) rest f p = absurd f
  HasPath-straight (ptr (subgroup name s h c) n) rest f p = absurd f

  pub HasPath-after :
      (f : Filter) (rest : Trails) → IsFlat f → HasPath rest → HasPath (after f rest)
  HasPath-after null rest f p = p
  HasPath-after (ptr nd n) rest f p = HasPath-routes nd rest (IsFlat-ptr nd n f).0 p

  pub HasPath-across :
      (f : Filter) (rest : Trails) → IsFlat f → HasPath rest → f ≢ null → HasPath (across f rest)
  HasPath-across null rest f p ne = absurd (ne refl)
  HasPath-across (ptr nd n) rest f p ne =
      HasPath-join (routes nd rest) (across n rest) (HasPath-routes nd rest (IsFlat-ptr nd n f).0 p)
