-- ===== src/Command/Results.antt =====
-- filtergen.c, `main`, when an input file is compiled.
use filtergen.Base.{
  ℕ, Bool, true, false, Option, some, Text, List, [], ◌∷◌, codes, ◌≡◌, refl, ap, ◌∙◌, if◌then◌else◌,
}
use filtergen.Base.Outcome.{Outcome, ok}
use filtergen.Filter.Tree.{Filter}
use filtergen.Gen.Entry.{rules}
use filtergen.Output.Strapp.{Written}
use filtergen.Command.{Ending, main, opened, from_stdin, act}
use filtergen.Command.Options.{Opt, Settings, defaults, proceed, read_options, defaulted}
use filtergen.Command.Tables.{System, SourceParser, Filtyp, find_parser, find_type}

-- The back end returned a count, the tree came from the parser, and nothing is removed.
abbrev pub Compiled : SourceParser → Filtyp → Settings → Text → Written → Bool → Type 0
Compiled sp ft s filename out removed =
    (f : Filter) × (n : ℕ) × (SourceParser.parser sp (from_stdin filename) s.flags ft.family ≡ ok f)
    × (Filtyp.compiler ft f s.flags [] ≡ ok (out, rules n))
    × (removed ≡ false)

other_branch : (b : Bool) → b ≡ false → (d e : Ending) → (if b then d else e) ≡ e
other_branch true off d e = cc
other_branch false off d e = refl

module _ (system : System) where
  -- A table's entry that the settings name.
  abbrev pub parser_of : Settings → Option SourceParser
  parser_of s = find_parser system (defaulted (codes "filtergen") s.source_name)

  abbrev pub type_of : Settings → Option Filtyp
  type_of s = find_type system (defaulted (codes "iptables") s.ftn)

  -- Without a flush, `main` comes to opening its output.
  pub main_opens :
      (options : List Opt) (filename : Text) (more : List Text) (s : Settings)
      → read_options options defaults ≡ proceed s
      → s.flags.flush ≡ false
      → main system options (filename ∷ more) ≡ opened system s (some filename)
  unfolding main
  main_opens options filename more s read unflushed =
      ap (λ p. act system p (filename ∷ more)) read ∙ other_branch s.flags.flush unflushed _ _
