-- ===== src/Command/Flushing.antt =====
-- filtergen.c, `main`, when the filter is only flushed.
use mathlib.Core.Path.{subst}
use filtergen.Base.{
  Bool, true, false, Option, none, some, Text, List, [], ◌∷◌, codes, text_eq, lowered, ◌≡◌, refl,
  ap, ◌⊎◌, inl, inr, if◌then◌else◌,
}
use filtergen.Base.Outcome.{null_pointer}
use filtergen.Filter.Types.{FilterType, t_accept, drop, t_reject}
use filtergen.Gen.Entry.{rules}
use filtergen.Output.Strapp.{Written}
use filtergen.Output.Iptables.Skeleton.{flush_iptables_common}
use filtergen.Output.Restore.Skeleton.{flush_iptrestore}
use filtergen.Output.Ipchains.{flush_ipchains}
use filtergen.Command.{exits, crashes, main, report, report_outcome, flush_with}
use filtergen.Command.Options.{
  Opt, missing_argument, opt_h, opt_c, opt_r, opt_v, opt_default, opt_o, opt_s, opt_t, opt_f,
  Settings, defaults, Parsing, proceed, leave, flush_policy, flushing, read_option, read_options,
  then_options, defaulted,
}
use filtergen.Command.Tables.{
  System, SourceParser, Filtyp, Flusher, find_type, type_named, filter_types,
}
use filtergen.Command.Results.{parser_of, type_of}

-- The policies that the option can set.
abbrev pub IsPolicy : FilterType → Type 0
IsPolicy p = (p ≡ t_accept) ⊎ (p ≡ drop) ⊎ (p ≡ t_reject)

-- What an option leaves has a policy.
abbrev HasPolicy : Parsing → Type 0
HasPolicy (leave status) = Unit {0}
HasPolicy (proceed s) = IsPolicy s.flushpol

policy_chosen :
    (s : Settings) (a d r : Bool)
    → HasPolicy (
        flushing s
          (if a then some t_accept else if d then some drop else if r then some t_reject else none))
policy_chosen s true d r = inl refl
policy_chosen s false true r = inr (inl refl)
policy_chosen s false false true = inr (inr refl)
policy_chosen s false false false = tt

policy_given : (s : Settings) (t : Text) → HasPolicy (flushing s (flush_policy t))
unfolding flush_policy
policy_given s t =
    let word = lowered t in
    policy_chosen s (text_eq word (codes "accept")) (text_eq word (codes "drop"))
      (text_eq word (codes "reject"))

read_option-policy : (o : Opt) (s : Settings) → IsPolicy s.flushpol → HasPolicy (read_option o s)
unfolding read_option
read_option-policy missing_argument s h = tt
read_option-policy opt_h s h = tt
read_option-policy opt_c s h = h
read_option-policy opt_r s h = h
read_option-policy opt_v s h = tt
read_option-policy opt_default s h = h
read_option-policy (opt_o a) s h = h
read_option-policy (opt_s a) s h = h
read_option-policy (opt_t a) s h = h
read_option-policy (opt_f a) s h = policy_given s a

then-policy :
    (p : Parsing) (k : Settings → Parsing)
    → HasPolicy p
    → ((s : Settings) → IsPolicy s.flushpol → HasPolicy (k s))
    → HasPolicy (then_options p k)
then-policy (leave status) k h more = tt
then-policy (proceed s) k h more = more s h

read_options-policy :
    (os : List Opt) (s : Settings) → IsPolicy s.flushpol → HasPolicy (read_options os s)
unfolding read_options
read_options-policy [] s h = h
read_options-policy (o ∷ os) s h =
    then-policy (read_option o s) (read_options os) (read_option-policy o s h)
      (read_options-policy os)

-- A flusher that writes something and reports no error, for each of the policies.
abbrev pub Flushes : Option Flusher → Type 0
Flushes none = Unit {0}
Flushes (some flusher) =
    (p : FilterType) → IsPolicy p → (out : Written) × (flusher p [] ≡ (out, rules 0))

iptables-Flushes : (prog : Text) (family : _) → Flushes (some (flush_iptables_common prog family))
unfolding flush_iptables_common
iptables-Flushes prog family p (inl e) = rw e (_, refl)
iptables-Flushes prog family p (inr (inl e)) = rw e (_, refl)
iptables-Flushes prog family p (inr (inr e)) = rw e (_, refl)

iptrestore-Flushes : Flushes (some flush_iptrestore)
unfolding flush_iptrestore
iptrestore-Flushes p (inl e) = rw e (_, refl)
iptrestore-Flushes p (inr (inl e)) = rw e (_, refl)
iptrestore-Flushes p (inr (inr e)) = rw e (_, refl)

ipchains-Flushes : Flushes (some flush_ipchains)
unfolding flush_ipchains
ipchains-Flushes p (inl e) = rw e (_, refl)
ipchains-Flushes p (inr (inl e)) = rw e (_, refl)
ipchains-Flushes p (inr (inr e)) = rw e (_, refl)

abbrev EachFlushes : List Filtyp → Type 0
EachFlushes [] = Unit {0}
EachFlushes (ft ∷ more) = Flushes (Filtyp.flusher ft) × EachFlushes more

this_or_later :
    (b : Bool) (d ft : Filtyp) (later : Option Filtyp)
    → (if b then some d else later) ≡ some ft
    → (d ≡ ft) ⊎ (later ≡ some ft)
this_or_later true d ft later h = inl (cc)
this_or_later false d ft later h = inr h

flush_ends :
    (flusher : Option Flusher) (s : Settings)
    → Flushes flusher
    → IsPolicy s.flushpol
    → ((flusher ≡ none)
        × (report_outcome s.ofn (flush_with flusher s.flushpol) ≡ crashes null_pointer))
      ⊎ ((out : Written) × (report_outcome s.ofn (flush_with flusher s.flushpol)
            ≡ exits 0 out false))
flush_ends none s each h = inl (refl, refl)
flush_ends (some flusher) s each h =
    let (out, e) = each s.flushpol h in inr (out, ap (report s.ofn) e)

module _ (system : System) where
  named-Flushes :
      (name : Text) (table : List Filtyp) (ft : Filtyp)
      → EachFlushes table
      → type_named system name table ≡ some ft
      → Flushes ft.flusher
  named-Flushes name [] ft each h = cc
  named-Flushes name (d ∷ table) ft (this, each) h =
      elim (this_or_later (text_eq name d.name) d ft (type_named system name table) h) [
        | inl e ↦ subst (λ t. Flushes (Filtyp.flusher t)) e this
        | inr later ↦ named-Flushes name table ft each later
      ]

  module _ (nftables : Flushes (some system.flush_nftables)) where
    table-Flushes : EachFlushes (filter_types system)
    table-Flushes = (
      iptables-Flushes _ _,
      (
        iptables-Flushes _ _,
        (
          iptrestore-Flushes,
          (iptrestore-Flushes, (ipchains-Flushes, (tt, (tt, (tt, (nftables, tt)))))),
        ),
      ),
    )

    found-Flushes :
        (name : Text) (ft : Filtyp) → find_type system name ≡ some ft → Flushes ft.flusher
    unfolding find_type
    found-Flushes name ft h = named-Flushes name (filter_types system) ft table-Flushes h

    -- If the nftables back end can flush, and the options ask for a flush and leave the program
    -- running, and the output can be opened, and the source and the target are in the tables, then
    -- the program crashes where the target has no function to flush it, and otherwise exits with
    -- status 0 and keeps its output: no policy that the option accepts is refused by a back end.
    pub main_flushes :
        (options : List Opt) (arguments : List Text) (s : Settings) (sp : SourceParser)
        (ft : Filtyp)
        → read_options options defaults ≡ proceed s
        → s.flags.flush ≡ true
        → system.open_outfile s.ofn ≡ true
        → parser_of system s ≡ some sp
        → type_of system s ≡ some ft
        → ((ft.flusher ≡ none) × (main system options arguments ≡ crashes null_pointer))
          ⊎ ((out : Written) × (main system options arguments ≡ exits 0 out false))
    unfolding main
    main_flushes options arguments s sp ft read asked opens source target =
        let policy = subst HasPolicy read (read_options-policy options defaults (inl refl)) in
        rw (read, asked, opens, source, target)
          (flush_ends ft.flusher s (found-Flushes (defaulted (codes "iptables") s.ftn) ft target)
            policy)
