-- ===== src/Glue/Full.antt =====
-- Trees in which nothing is empty that has something inside, and the loops of glue.c on them.
use filtergen.Base.{ℕ, Option, none, some, Text, Bool, true, false}
use filtergen.Filter.Tree.{Filter, null, ptr, leaf, neg, siblings, subgroup}
use filtergen.Filter.Build.{new_filter_neg, new_filter_siblings, new_filter_subgroup}
use filtergen.Glue.Links.{set_pos, link_next, link_child, Naming}
use filtergen.Glue.Ast.{ArgumentList, no_list, arguments}
use filtergen.Glue.Arguments.{given, extended, convert_argument_list, convert_arguments}
use filtergen.Glue.Convert.{deepened, negated_if, when_given, rules_joined}

-- No negation of nothing, no empty list of siblings and no empty subgroup.
abbrev pub IsFull : Filter → Type 0
IsFull null = Unit {0}
IsFull (ptr (leaf l h c) n) = IsFull c × IsFull n
IsFull (ptr (neg null h c) n) = ⊥
IsFull (ptr (neg (ptr nd m) h c) n) = IsFull (ptr nd m) × IsFull c × IsFull n
IsFull (ptr (siblings null h c) n) = ⊥
IsFull (ptr (siblings (ptr nd m) h c) n) = IsFull (ptr nd m) × IsFull c × IsFull n
IsFull (ptr (subgroup name null h c) n) = ⊥
IsFull (ptr (subgroup name (ptr nd m) h c) n) = IsFull (ptr nd m) × IsFull c × IsFull n

pub set_pos-IsFull : (p : ℕ) (f : Filter) → IsFull f → IsFull (set_pos p f)
set_pos-IsFull p null h = h
set_pos-IsFull p (ptr (leaf l k c) n) h = h
set_pos-IsFull p (ptr (neg null k c) n) h = absurd h
set_pos-IsFull p (ptr (neg (ptr nd m) k c) n) h = h
set_pos-IsFull p (ptr (siblings null k c) n) h = absurd h
set_pos-IsFull p (ptr (siblings (ptr nd m) k c) n) h = h
set_pos-IsFull p (ptr (subgroup name null k c) n) h = absurd h
set_pos-IsFull p (ptr (subgroup name (ptr nd m) k c) n) h = h

pub link_next-IsFull : (f x : Filter) → IsFull f → IsFull x → IsFull (link_next f x)
unfolding link_next
link_next-IsFull null x h hx = hx
link_next-IsFull (ptr (leaf l k c) n) x (hc, hn) hx = (hc, link_next-IsFull n x hn hx)
link_next-IsFull (ptr (neg null k c) n) x h hx = absurd h
link_next-IsFull (ptr (neg (ptr nd m) k c) n) x (hs, hc, hn) hx =
    (hs, hc, link_next-IsFull n x hn hx)
link_next-IsFull (ptr (siblings null k c) n) x h hx = absurd h
link_next-IsFull (ptr (siblings (ptr nd m) k c) n) x (hs, hc, hn) hx =
    (hs, hc, link_next-IsFull n x hn hx)
link_next-IsFull (ptr (subgroup name null k c) n) x h hx = absurd h
link_next-IsFull (ptr (subgroup name (ptr nd m) k c) n) x (hs, hc, hn) hx =
    (hs, hc, link_next-IsFull n x hn hx)

pub link_child-IsFull : (f x : Filter) → IsFull f → IsFull x → IsFull (link_child f x)
unfolding link_child
link_child-IsFull null x h hx = hx
link_child-IsFull (ptr (leaf l k c) n) x (hc, hn) hx = (link_child-IsFull c x hc hx, hn)
link_child-IsFull (ptr (neg null k c) n) x h hx = absurd h
link_child-IsFull (ptr (neg (ptr nd m) k c) n) x (hs, hc, hn) hx =
    (hs, link_child-IsFull c x hc hx, hn)
link_child-IsFull (ptr (siblings null k c) n) x h hx = absurd h
link_child-IsFull (ptr (siblings (ptr nd m) k c) n) x (hs, hc, hn) hx =
    (hs, link_child-IsFull c x hc hx, hn)
link_child-IsFull (ptr (subgroup name null k c) n) x h hx = absurd h
link_child-IsFull (ptr (subgroup name (ptr nd m) k c) n) x (hs, hc, hn) hx =
    (hs, link_child-IsFull c x hc hx, hn)

pub extended-IsFull : (f x : Filter) → IsFull f → IsFull x → IsFull (extended f x)
extended-IsFull null x h hx = h
extended-IsFull (ptr nd n) x h hx = link_next-IsFull (ptr nd n) x h hx

pub deepened-IsFull : (f x : Filter) → IsFull f → IsFull x → IsFull (deepened f x)
deepened-IsFull null x h hx = h
deepened-IsFull (ptr nd n) x h hx = link_child-IsFull (ptr nd n) x h hx

pub rules_joined-IsFull : (f x : Filter) → IsFull f → IsFull x → IsFull (rules_joined f x)
rules_joined-IsFull null x h hx = hx
rules_joined-IsFull (ptr nd n) x h hx = link_next-IsFull (ptr nd n) x h hx

pub when_given-IsFull :
    (f : Filter) (run : Naming Filter) (count : ℕ)
    → IsFull (run count).0
    → IsFull (when_given f run count).0
when_given-IsFull null run count h = tt
when_given-IsFull (ptr nd n) run count h = h

pub negated_if-IsFull : (b : Bool) (f : Filter) → IsFull f → IsFull (negated_if b f)
unfolding new_filter_neg
negated_if-IsFull true null h = h
negated_if-IsFull true (ptr nd n) h = (h, tt, tt)
negated_if-IsFull false f h = h

pub siblings-IsFull : (f : Filter) → IsFull f → IsFull (new_filter_siblings f)
unfolding new_filter_siblings
siblings-IsFull null h = h
siblings-IsFull (ptr nd n) h = (h, tt, tt)

pub subgroup-IsFull : (name : Text) (f : Filter) → IsFull f → IsFull (new_filter_subgroup name f)
unfolding new_filter_subgroup
subgroup-IsFull name null h = h
subgroup-IsFull name (ptr nd n) h = (h, tt, tt)

pub given-IsFull :
    {A : Type 0} (convert : A → Filter) (o : Option A)
    → ((a : A) → IsFull (convert a))
    → IsFull (given convert o)
given-IsFull convert none h = tt
given-IsFull convert (some a) h = h a

module _ {A : Type 0} (convert : A → Filter) (full : (a : A) → IsFull (convert a)) where
  argument_list-IsFull : (list : ArgumentList A) → IsFull (convert_argument_list convert list)
  unfolding convert_argument_list
  argument_list-IsFull no_list = tt
  argument_list-IsFull (arguments no_list arg p) =
      set_pos-IsFull p (given convert arg) (given-IsFull convert arg full)
  argument_list-IsFull (arguments (arguments list a q) arg p) =
      set_pos-IsFull p
        (extended (convert_argument_list convert (arguments list a q)) (given convert arg))
        (extended-IsFull (convert_argument_list convert (arguments list a q)) (given convert arg)
          (argument_list-IsFull (arguments list a q)) (given-IsFull convert arg full))

  pub arguments-IsFull : (list : ArgumentList A) (p : ℕ) → IsFull (convert_arguments convert list p)
  unfolding convert_arguments
  arguments-IsFull list p =
      set_pos-IsFull p (new_filter_siblings (convert_argument_list convert list))
        (siblings-IsFull (convert_argument_list convert list) (argument_list-IsFull list))
