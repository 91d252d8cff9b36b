-- ===== src/Glue/Lost.antt =====
-- glue.c: words of the policy that do not reach the back end.
use filtergen.Base.{ℕ, Option, true, Text, ◌≡◌, refl, arith, ap}
use filtergen.Filter.Types.{f_oneway, yyeof, tag_eq, Family}
use filtergen.Filter.Tree.{
  Filter, null, ptr, Leaf, Head, leaf, neg, siblings, subgroup, routingtype,
}
use filtergen.Filter.Build.{Libc, new_head}
use filtergen.Gen.Entry.{FilterEnt, filled}
use filtergen.Gen.Apply.{fg_applyone_leaf}
use filtergen.Glue.Ast.{tok_oneway, SpecifierList, NegatedSpecifier, specifiers}
use filtergen.Glue.Links.{set_pos, link_child, Naming}
use filtergen.Glue.Arguments.{convert_option_specifier}
use filtergen.Glue.Convert.{deepened, when_given, convert_specifier_list, convert_negated_specifier}

-- The word `oneway` of the filtergen language does not set the entry's `oneway`. What the glue makes
-- of it is one leaf, and an entry without a routing type takes this leaf: its `oneway` stays as
-- it was, and its routing type becomes F_ONEWAY.
pub oneway_unset :
    (m : Option Text) (p : ℕ) (e : FilterEnt)
    → tag_eq e.rtype yyeof ≡ true
    → (l : Leaf) × (h : Head) × (e' : FilterEnt) × (convert_option_specifier tok_oneway m p
        ≡ ptr (leaf l h null) null)
      × (fg_applyone_leaf l h e ≡ filled e')
      × (e'.oneway ≡ e.oneway)
      × (e'.rtype ≡ f_oneway)
unfolding convert_option_specifier fg_applyone_leaf
oneway_unset m p e r = (
  routingtype f_oneway,
  new_head p,
  record e { pos = p; rtype = f_oneway },
  refl,
  ground arith,
  refl,
  refl,
)

link_child-null : (f : Filter) → link_child f null ≡ f
unfolding link_child
link_child-null null = refl
link_child-null (ptr (leaf l h c) n) = ap (λ d. ptr (leaf l h d) n) (link_child-null c)
link_child-null (ptr (neg s h c) n) = ap (λ d. ptr (neg s h d) n) (link_child-null c)
link_child-null (ptr (siblings s h c) n) = ap (λ d. ptr (siblings s h d) n) (link_child-null c)
link_child-null (ptr (subgroup name s h c) n) =
    ap (λ d. ptr (subgroup name s h d) n) (link_child-null c)

nothing_added :
    (f : Filter) (run : Naming Filter) (count : ℕ)
    → (run count).0 ≡ null
    → deepened f (when_given f run count).0 ≡ f
nothing_added null run count h = refl
nothing_added (ptr nd n) run count h = rw h (link_child-null (ptr nd n))

-- A specifier that gives no filter, such as an unknown protocol, is dropped if it stands behind
-- another one: the list becomes what it is without that condition, but for its position.
pub failed_specifier_dropped :
    (libc : Libc) (family : Family) (before : SpecifierList) (first last : NegatedSpecifier)
    (q p count : ℕ)
    → (convert_negated_specifier libc family last
        (convert_specifier_list libc family (specifiers before first q) count).1).0
      ≡ null
    → (convert_specifier_list libc family (specifiers (specifiers before first q) last p) count).0
      ≡ set_pos p (convert_specifier_list libc family (specifiers before first q) count).0
unfolding convert_specifier_list
failed_specifier_dropped libc family before first last q p count h =
    ap (set_pos p) (nothing_added _ _ _ h)

nothing_deepened :
    (f : Filter) (run : Naming Filter) (count p : ℕ)
    → f ≡ null
    → set_pos p (deepened f (when_given f run count).0) ≡ null
nothing_deepened null run count p h = refl
nothing_deepened (ptr nd n) run count p h = cc

-- Where the specifiers before give no filter, as when the first one of the rule does not, the list
-- gives none either, whatever stands behind: the rule is lost as a whole.
pub nothing_behind_failure :
    (libc : Libc) (family : Family) (before : SpecifierList) (first last : NegatedSpecifier)
    (q p count : ℕ)
    → (convert_specifier_list libc family (specifiers before first q) count).0 ≡ null
    → (convert_specifier_list libc family (specifiers (specifiers before first q) last p) count).0
      ≡ null
unfolding convert_specifier_list
nothing_behind_failure libc family before first last q p count h = nothing_deepened _ _ _ p h
