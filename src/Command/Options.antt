-- ===== src/Command/Options.antt =====
-- filtergen.c, the loop over the options in `main`.
use filtergen.Base.{
  ℕ, true, false, Option, none, some, Text, List, [], ◌∷◌, codes, text_eq, lowered, if◌then◌else◌,
}
use filtergen.Filter.Types.{FilterType, t_accept, drop, t_reject}
use filtergen.Gen.Entry.{Flags}

-- A result of `getopt_long` by the case it goes to, with `optarg`. The default case takes what
-- `getopt_long` did not recognise.
pub data Opt : Type 0 where
  missing_argument opt_h opt_c opt_r opt_v opt_default : Opt
  opt_o opt_s opt_t opt_f : Text → Opt

-- The variables of `main` that the loop writes.
pub record Settings : Type 0 where
  pub flags : Flags
  pub ofn : Option Text
  pub source_name : Option Text
  pub ftn : Option Text
  pub flushpol : FilterType

abbrev pub no_flags : Flags
no_flags = record {
  noskel = false;
  lstate = false;
  local = false;
  route = false;
  noresolve = false;
  flush = false;
}

abbrev pub defaults : Settings
defaults = record {
  flags = no_flags;
  ofn = none;
  source_name = none;
  ftn = none;
  flushpol = t_accept;
}

-- After an option the loop goes on, or the program ends with a status.
pub data Parsing : Type 0 where
  proceed : Settings → Parsing
  leave : ℕ → Parsing

unfoldable pub flush_policy : Text → Option FilterType
unfolding text_eq
flush_policy s =
    if text_eq (lowered s) (codes "accept")
    then some t_accept
    else if text_eq (lowered s) (codes "drop")
    then some drop
    else if text_eq (lowered s) (codes "reject")
    then some t_reject
    else none

abbrev pub flushing : Settings → Option FilterType → Parsing
flushing s none = leave 1
flushing s (some policy) =
    proceed (record s { flags = record s.flags { flush = true }; flushpol = policy })

unfoldable pub read_option : Opt → Settings → Parsing
unfolding flush_policy
read_option missing_argument s = leave 1
read_option opt_h s = leave 0
read_option opt_c s = proceed (record s { flags = record s.flags { noskel = true } })
read_option (opt_o a) s = proceed (record s { ofn = some a })
read_option opt_r s = proceed (record s { flags = record s.flags { noresolve = true } })
read_option (opt_s a) s = proceed (record s { source_name = some a })
read_option (opt_t a) s = proceed (record s { ftn = some a })
read_option (opt_f a) s = flushing s (flush_policy a)
read_option opt_v s = leave 0
read_option opt_default s = proceed s

-- The loop: what is done after an option, if the program has not ended.
abbrev pub then_options : Parsing → (Settings → Parsing) → Parsing
then_options (leave status) rest = leave status
then_options (proceed s) rest = rest s

unfoldable pub read_options : List Opt → Settings → Parsing
unfolding read_option
read_options [] s = proceed s
read_options (o ∷ os) s = then_options (read_option o s) (read_options os)

-- `if (!ftn || !*ftn) ftn = strdup("iptables")`, and the same for the source.
abbrev pub defaulted : Text → Option Text → Text
defaulted d none = d
defaulted d (some []) = d
defaulted d (some (c ∷ s)) = c ∷ s
