-- ===== src/Resolve/Icmp/Found.antt =====
-- icmpent.c: looking up the entries of the table.
use mathlib.Core.Path.{subst}
use filtergen.Base.{
  ℕ, zero, suc, Bool, true, false, ◌&&◌, not, is_set, Option, none, some, Text, List, [], ◌∷◌,
  text_eq, ◌==◌, ◌≡◌, refl, ap₂, arith, Bool-cases, both_true, equal_bytes, inl, inr,
}
use filtergen.Resolve.Icmp.{IcmpEnt, entry, icmpcodes, find_icmp, geticmpbyname}

text_eq_sound : (s t : Text) → text_eq s t ≡ true → s ≡ t
unfolding text_eq
text_eq_sound [] [] h = refl
text_eq_sound [] (b ∷ t) h = cc
text_eq_sound (a ∷ s) [] h = cc
text_eq_sound (a ∷ s) (b ∷ t) h =
    let (e, es) = both_true (a == b) (text_eq s t) h in
    ap₂ ◌∷◌ (equal_bytes a b e) (text_eq_sound s t es)

abbrev pub get_elem? : List IcmpEnt → ℕ → Option IcmpEnt
get_elem? [] i = none
get_elem? (e ∷ es) zero = some e
get_elem? (e ∷ es) (suc i) = get_elem? es i

-- Each entry of a table passes a test.
each : (IcmpEnt → Bool) → List IcmpEnt → Bool
each p [] = true
each p (e ∷ es) = p e && each p es

each_at :
    (p : IcmpEnt → Bool) (es : List IcmpEnt) (i : ℕ) (e : IcmpEnt)
    → each p es ≡ true
    → get_elem? es i ≡ some e
    → p e ≡ true
unfolding each
each_at p [] i e h at = cc
each_at p (d ∷ es) zero e h at =
    subst (λ k. p k ≡ true) {x = d} {y = e} (cc) (both_true (p d) (each p es) h).0
each_at p (d ∷ es) (suc i) e h at = each_at p es i e (both_true (p d) (each p es) h).1 at

is_entry : IcmpEnt → Option IcmpEnt → Bool
is_entry e none = false
is_entry e (some d) = text_eq d.i_type e.i_type && text_eq d.name e.name

is_entry_sound : (e : IcmpEnt) (o : Option IcmpEnt) → is_entry e o ≡ true → o ≡ some e
unfolding is_entry
is_entry_sound e none h = cc
is_entry_sound e (some d) h =
    let (t, n) = both_true (text_eq d.i_type e.i_type) (text_eq d.name e.name) h in
    ap₂ (λ a b. some (entry a b)) (text_eq_sound d.i_type e.i_type t)
      (text_eq_sound d.name e.name n)

names_found : each (λ e. is_entry e (geticmpbyname e.name)) icmpcodes ≡ true
unfolding each is_entry geticmpbyname icmpcodes
names_found = refl

types_unnamed : each (λ e. not (is_set (geticmpbyname e.i_type))) icmpcodes ≡ true
unfolding each geticmpbyname icmpcodes
types_unnamed = refl

-- Every entry of the table is found by its name: no name stands in the table twice.
pub geticmpbyname_finds :
    (i : ℕ) (e : IcmpEnt) → get_elem? icmpcodes i ≡ some e → geticmpbyname e.name ≡ some e
geticmpbyname_finds i e at =
    is_entry_sound e (geticmpbyname e.name)
      (each_at (λ d. is_entry d (geticmpbyname d.name)) icmpcodes i e names_found at)

find_icmp-at :
    (name : Text) (es : List IcmpEnt) (e : IcmpEnt)
    → find_icmp name es ≡ some e
    → (i : ℕ) × (get_elem? es i ≡ some e)
unfolding find_icmp
find_icmp-at name [] e h = cc
find_icmp-at name (d ∷ es) e h = elim (Bool-cases (text_eq name d.name)) [
  | inl same ↦ (0, ground arith)
  | inr other ↦ let (i, at) = find_icmp-at name es e (ground arith) in (suc i, at)
]

unset : (o : Option IcmpEnt) → not (is_set o) ≡ true → o ≡ none
unset none h = refl
unset (some e) h = cc

-- What is found has a type that is not itself a name.
pub found_type_unnamed :
    (name : Text) (e : IcmpEnt) → geticmpbyname name ≡ some e → geticmpbyname e.i_type ≡ none
unfolding geticmpbyname
found_type_unnamed name e h =
    let (i, at) = find_icmp-at name icmpcodes e h in
    unset (geticmpbyname e.i_type)
      (each_at (λ d. not (is_set (geticmpbyname d.i_type))) icmpcodes i e types_unnamed at)
