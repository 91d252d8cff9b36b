-- ===== src/Output/Iptables/Skeleton.antt =====
-- output/iptables/fg-iptables.c, `fg_iptables_common` and `flush_iptables_common`: what stands around
-- the rules, and the rules that flush the packet filter.
use filtergen.Base.{
  ℕ, ◌+◌, Bool, true, false, not, ◌&&◌, ◌||◌, Option, none, some, Text, List, [], ◌∷◌, ◌++◌, codes,
  concat, if◌then◌else◌,
}
use filtergen.Base.Outcome.{Outcome, ok, ◌>>=◌}
use filtergen.Filter.Types.{FilterType, t_accept, drop, t_reject, Family, af_inet, af_inet6}
use filtergen.Filter.Tree.{Filter}
use filtergen.Filter.Targets.{filter_unroll}
use filtergen.Gen.Entry.{Count, failed, aborted, rules, Flags}
use filtergen.Gen.Apply.{filtergen_cprod}
use filtergen.Output.Strapp.{Written}
use filtergen.Output.Iptables.Choice.{Features, Made}
use filtergen.Output.Iptables.{cb_iptables, iptables, ip6tables}
use filtergen.Output.Lines.{optional}

abbrev pub is_inet : Family → Bool
is_inet af_inet = true
is_inet _ = false

-- `oprintf` of the parts of a line.
abbrev pub nat_flush : Text → Text
nat_flush prog = concat (prog ∷ codes " -t nat -F; " ∷ prog ∷ codes " -t nat -X" ∷ [])

abbrev pub flush : Text → Text
flush prog = concat (prog ∷ codes " -F; " ∷ prog ∷ codes " -X" ∷ [])

abbrev pub set_policy : Text → Text → Text
set_policy prog word =
    concat (codes "for f in $CHAINS; do " ∷ prog ∷ codes " -P $f " ∷ word ∷ codes "; done" ∷ [])

-- What is written before the rules.
unfoldable pub skeleton : Text → Family → List Text
skeleton prog family =
    codes "CHAINS=\"INPUT OUTPUT FORWARD\""
      ∷ []
      ∷ codes "# Flush/remove rules, set policy"
      ∷ set_policy prog (codes "DROP")
      ∷ flush prog
      ∷ optional (is_inet family) (nat_flush prog ∷ [])
    ++ []
      ∷ codes "# Create FORW_OUT chain"
      ∷ concat (prog ∷ codes " -N FORW_OUT" ∷ [])
      ∷ []
      ∷ codes "# Setup INVALID chain"
      ∷ concat (prog ∷ codes " -N INVALID" ∷ [])
      ∷ concat (prog ∷ codes " -A INVALID -j DROP" ∷ [])
      ∷ codes "for f in $CHAINS; do"
      ∷ concat (codes "\t" ∷ prog ∷ codes " -I $f -m conntrack --ctstate INVALID -j INVALID;" ∷ [])
      ∷ codes "done"
      ∷ []
      ∷ []

-- What is written behind them: the rules for established connections, if no rule has its own.
abbrev pub needs_established : Flags → Features → Bool
needs_established flags feat = not flags.noskel && (flags.lstate && (feat.tcp || feat.udp))

unfoldable pub established : Text → Features → List Text
established prog feat =
    codes "for f in $CHAINS; do"
      ∷ optional feat.tcp (
          concat (
            codes "\t"
            ∷ prog
            ∷ codes " -I $f -p tcp ! --syn -m conntrack --ctstate ESTABLISHED -j ACCEPT;"
            ∷ [])
          ∷ [])
    ++ optional feat.udp (
        concat (
          codes "\t"
          ∷ prog
          ∷ codes " -I $f -p udp -m conntrack --ctstate ESTABLISHED -j ACCEPT;"
          ∷ [])
        ∷ [])
    ++ codes "done" ∷ []

-- `r += nchains` for each of the two protocols.
abbrev pub established_rules : Features → ℕ
established_rules feat = (if feat.tcp then 3 else 0) + (if feat.udp then 3 else 0)

-- `if ((r = filtergen_cprod(...)) < 0) return r;` and the rest. The count of the skeleton's own
-- rules is overwritten.
abbrev pub finish : Text → Flags → Made × Count → Written × Count
finish prog flags (made, failed) = (made.written, failed)
finish prog flags (made, aborted) = (made.written, aborted)
finish prog flags (made, rules n) =
    if needs_established flags made.feat
    then (made.written ++ established prog made.feat, rules (n + established_rules made.feat))
    else (made.written, rules n)

abbrev pub no_features : Features
no_features = record { bit_2 = false; tcp = false; udp = false }

abbrev pub started : Text → Family → Flags → Written → Made
started prog family flags out = record {
  written = out ++ optional (not flags.noskel) (skeleton prog family);
  feat = no_features;
}

unfoldable pub fg_iptables_common :
    Text → Family → Filter → Flags → Written → Outcome (Written × Count)
unfolding skeleton established
fg_iptables_common prog family filter flags out = do
  unrolled ← filter_unroll filter
  ok (
      finish prog flags
        (filtergen_cprod (cb_iptables prog family flags) unrolled (started prog family flags out)))

abbrev pub fg_iptables : Filter → Flags → Written → Outcome (Written × Count)
fg_iptables = fg_iptables_common iptables af_inet

abbrev pub fg_ip6tables : Filter → Flags → Written → Outcome (Written × Count)
fg_ip6tables = fg_iptables_common ip6tables af_inet6

-- The policy's word of a flush; T_REJECT, which iptables does not take as a policy, included.
unfoldable pub policy_word : FilterType → Option Text
policy_word t_accept = some (codes "ACCEPT")
policy_word drop = some (codes "DROP")
policy_word t_reject = some (codes "REJECT")
policy_word _ = none

abbrev pub flush_lines : Text → Family → Option Text → List Text
flush_lines prog family none = []
flush_lines prog family (some word) =
    set_policy prog word ∷ flush prog ∷ optional (is_inet family) (nat_flush prog ∷ [])

abbrev pub flushed : Option Text → Count
flushed none = failed
flushed (some _) = rules 0

unfoldable pub flush_iptables_common : Text → Family → FilterType → Written → Written × Count
unfolding policy_word
flush_iptables_common prog family policy out = (
  out
      ++ codes "CHAINS=\"INPUT OUTPUT FORWARD\""
        ∷ []
        ∷ flush_lines prog family (policy_word policy),
  flushed (policy_word policy),
)

abbrev pub flush_iptables : FilterType → Written → Written × Count
flush_iptables = flush_iptables_common iptables af_inet

-- It passes AF_INET.
abbrev pub flush_ip6tables : FilterType → Written → Written × Count
flush_ip6tables = flush_iptables_common ip6tables af_inet
