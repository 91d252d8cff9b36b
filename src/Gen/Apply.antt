-- ===== src/Gen/Apply.antt =====
-- gen.c, `__fg_applyone`, `__fg_apply`, `__fg_applylist` and `filtergen_cprod`.
pub mod Paths
pub mod Flat
pub mod Counts
pub mod Runs
pub mod Refine
pub mod Safety
pub mod Counting
pub mod Fields
use filtergen.Base.{
  ℕ, zero, suc, ◌+◌, Bool, true, false, Option, none, some, Text, List, [], ◌∷◌, is_set, not,
  if◌then◌else◌,
}
use filtergen.Filter.Types.{
  FilterType, yyeof, f_direction, f_target, f_source, f_dest, f_sport, f_dport, f_icmptype, f_proto,
  f_log, f_routingtype, f_oneway, f_subgroup, tag_eq,
}
use filtergen.Filter.Tree.{
  Filter, null, ptr, Node, Leaf, Head, direction, target, source, dest, sport, dport, icmptype,
  proto, log, routingtype, oneway, other, leaf, neg, siblings, subgroup,
}
use filtergen.Gen.Entry.{
  FilterEnt, insert_tag, zero_ent, Count, failed, aborted, rules, Applied, refused, crashes, filled,
  Run, Callback,
}
use filtergen.Gen.Check.{applydefaults, Complaint, checkmatch}

-- `f->type` of a leaf.
abbrev pub leaf_type : Leaf → FilterType
leaf_type (direction d i) = f_direction
leaf_type (target t) = f_target
leaf_type (source a) = f_source
leaf_type (dest a) = f_dest
leaf_type (sport p) = f_sport
leaf_type (dport p) = f_dport
leaf_type (icmptype i) = f_icmptype
leaf_type (proto p) = f_proto
leaf_type (log m) = f_log
leaf_type (routingtype r) = f_routingtype
leaf_type oneway = f_oneway
leaf_type (other t) = t

-- The macro `_NA`: give up if the entry has it already. The message prints it, as a number or as
-- the string that it is.
abbrev pub unless : Bool → FilterEnt → Applied
unless b e = if b then refused else filled e

-- `_NA` with the format "%s" for what is an integer.
abbrev pub unless_misprinted : Bool → FilterEnt → Applied
unless_misprinted b e = if b then crashes else filled e

-- The cases of the switch. A routing type is an enumeration, and `DV` prints it with "%s".
unfoldable pub set_field : Leaf → FilterEnt → Applied
set_field (target t) e =
    unless (e.whats_set f_target)
      (record e { target = t; whats_set = insert_tag f_target e.whats_set })
set_field (direction d i) e =
    if e.whats_set f_direction
    then refused
    else unless (is_set e.iface)
        (record e { direction = d; iface = some i; whats_set = insert_tag f_direction e.whats_set })
set_field (log m) e = filled (record e { logmsg = m; whats_set = insert_tag f_log e.whats_set })
set_field (proto p) e = unless (is_set e.proto.name) (record e { proto = p })
set_field (source a) e = unless (is_set e.srcaddr.addrstr) (record e { srcaddr = a })
set_field (dest a) e = unless (is_set e.dstaddr.addrstr) (record e { dstaddr = a })
set_field (sport p) e = unless (is_set e.src.minstr) (record e { src = p })
set_field (dport p) e = unless (is_set e.src.maxstr) (record e { dst = p })
set_field (icmptype i) e = unless (is_set e.icmp) (record e { icmp = some i })
set_field (routingtype r) e =
    unless_misprinted (not (tag_eq e.rtype yyeof)) (record e { rtype = r })
set_field oneway e = filled (record e { oneway = true })
set_field (other t) e = refused

-- `if (f->negate) e->whats_negated |= (1 << f->type)`.
abbrev pub note_negation : FilterType → Head → FilterEnt → FilterEnt
note_negation t h e =
    if h.negate then record e { whats_negated = insert_tag t e.whats_negated } else e

abbrev pub note_result : FilterType → Head → Applied → Applied
note_result t h refused = refused
note_result t h crashes = crashes
note_result t h (filled e) = filled (note_negation t h e)

-- `__fg_applyone` on a leaf.
unfoldable pub fg_applyone_leaf : Leaf → Head → FilterEnt → Applied
unfolding set_field
fg_applyone_leaf l h e = note_result (leaf_type l) h (set_field l (record e { pos = h.pos }))

-- `__fg_applyone` on a subgroup, up to the call of the back end. `NC` prints the bit of `whats_set`
-- with "%s".
unfoldable pub open_subgroup : Text → Head → FilterEnt → Applied
open_subgroup name h e =
    if e.whats_set f_subgroup
    then crashes
    else unless (is_set e.subgroup) (record e {
      whats_set = insert_tag f_subgroup e.whats_set;
      target = f_subgroup;
      subgroup = some name;
      pos = h.pos;
    })

-- The entry that the rules of the group begin with.
abbrev pub group_ent : Text → FilterEnt → FilterEnt
group_ent name e = record zero_ent { groupname = some name; direction = e.direction }

module _ {S : Type 0} where
  -- `_c = first; if (_c < 0) return _c; c += _c;` and on with the rest.
  abbrev pub add_counts : ℕ → S × Count → S × Count
  add_counts n (s, failed) = (s, failed)
  add_counts n (s, aborted) = (s, aborted)
  add_counts n (s, rules m) = (s, rules (n + m))

  abbrev pub then_rest : S × Count → Run S → S × Count
  then_rest (s, failed) rest = (s, failed)
  then_rest (s, aborted) rest = (s, aborted)
  then_rest (s, rules n) rest = add_counts n (rest s)

  -- `if (r) return r;` and on with the child.
  abbrev pub unless_result : S × Count → Run S → S × Count
  unless_result (s, failed) next = (s, failed)
  unless_result (s, aborted) next = (s, aborted)
  unless_result (s, rules zero) next = next s
  unless_result (s, rules (suc n)) next = (s, rules (suc n))

  -- `if (r < 0) return r;` and on.
  abbrev pub unless_failed : S × Count → Run S → S × Count
  unless_failed (s, failed) next = (s, failed)
  unless_failed (s, aborted) next = (s, aborted)
  unless_failed (s, rules n) next = next s

  abbrev pub with_ent : Applied → (FilterEnt → Run S) → Run S
  with_ent refused k s = (s, failed)
  with_ent crashes k s = (s, aborted)
  with_ent (filled e) k s = k e s

  -- `if (checkmatch(&e)) return -1;`
  abbrev pub unless_complaints : List Complaint → Run S → Run S
  unless_complaints [] next s = next s
  unless_complaints (_ ∷ _) next s = (s, failed)

  -- `__fg_apply` at the end of a chain.
  unfoldable pub fg_finish : Callback S → FilterEnt → Run S
  fg_finish cb e s =
      let whole = applydefaults e cb.flags in unless_complaints (checkmatch whole) (cb.rule whole) s

  -- The rest of the case F_SUBGROUP, and the child. `inside` is the list of the group's rules.
  abbrev pub in_subgroup :
      Option (Text → S → S)
      → Text
      → Head
      → (FilterEnt → Run S)
      → (FilterEnt → Run S)
      → FilterEnt
      → Run S
  in_subgroup none name h inside next e s = (s, failed)
  in_subgroup (some group) name h inside next e s =
      unless_failed (inside (group_ent name e) (group name s)) (next (note_negation f_subgroup h e))

  module _ (cb : Callback S) where
    unfoldable mutual
      -- `__fg_apply` on a node: `__fg_applyone`, then the child.
      pub fg_apply_node : Node → FilterEnt → S → S × Count
      fg_apply_node (leaf l h c) e s = with_ent (fg_applyone_leaf l h e) (fg_apply c) s
      fg_apply_node (neg f h c) e s = (s, failed)
      fg_apply_node (siblings f h c) e s =
          unless_result (fg_applylist f (record e { pos = h.pos }) s)
            (fg_apply c (record e { pos = h.pos }))
      fg_apply_node (subgroup name f h c) e s =
          with_ent (open_subgroup name h e)
            (in_subgroup cb.group name h (fg_applylist f) (fg_apply c)) s

      pub fg_apply : Filter → FilterEnt → S → S × Count
      fg_apply null e s = fg_finish cb e s
      fg_apply (ptr nd n) e s = fg_apply_node nd e s

      pub fg_applylist : Filter → FilterEnt → S → S × Count
      fg_applylist null e s = (s, rules 0)
      fg_applylist (ptr nd n) e s = then_rest (fg_apply_node nd e s) (fg_applylist n e)

    unfoldable pub filtergen_cprod : Filter → Run S
    unfolding fg_applylist
    filtergen_cprod f = fg_applylist f zero_ent
