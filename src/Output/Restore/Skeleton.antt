-- ===== src/Output/Restore/Skeleton.antt =====
-- output/iptablesrestore/fg-iptablesrestore.c, `fg_iptrestore_common` and `flush_iptrestore_common`.
use filtergen.Base.{
  ℕ, ◌+◌, Bool, not, ◌&&◌, Option, none, some, Text, List, [], ◌∷◌, ◌++◌, codes, concat,
  if◌then◌else◌,
}
use filtergen.Base.Outcome.{Outcome, ok, ◌>>=◌}
use filtergen.Filter.Types.{FilterType, t_accept, drop, t_reject, Family, af_inet, af_inet6}
use filtergen.Filter.Tree.{Filter}
use filtergen.Filter.Targets.{filter_unroll}
use filtergen.Gen.Entry.{Count, failed, aborted, rules, Flags}
use filtergen.Gen.Apply.{filtergen_cprod}
use filtergen.Output.Strapp.{Written}
use filtergen.Output.Lines.{optional}
use filtergen.Output.Iptables.Choice.{Features, Made}
use filtergen.Output.Iptables.Skeleton.{no_features}
use filtergen.Output.Restore.{cb_iptrestore}

unfoldable pub skeleton : Text → List Text
skeleton prog =
    concat (prog ∷ codes " <<EOF" ∷ [])
    ∷ codes "*filter"
    ∷ codes ":INPUT DROP [0:0]"
    ∷ codes ":OUTPUT DROP [0:0]"
    ∷ codes ":FORWARD DROP [0:0]"
    ∷ []
    ∷ codes "-N FORW_OUT"
    ∷ []
    ∷ codes "-N INVALID"
    ∷ codes "-A INVALID -j DROP"
    ∷ codes "-I INPUT -m conntrack --ctstate INVALID -j INVALID"
    ∷ codes "-I OUTPUT -m conntrack --ctstate INVALID -j INVALID"
    ∷ codes "-I FORWARD -m conntrack --ctstate INVALID -j INVALID"
    ∷ []
    ∷ []

-- The rules for established connections, for each of the three chains.
unfoldable pub established : Features → List Text
established feat =
    optional feat.tcp (
      codes "-I INPUT -p tcp ! --syn -m conntrack --ctstate ESTABLISHED -j ACCEPT"
      ∷ codes "-I OUTPUT -p tcp ! --syn -m conntrack --ctstate ESTABLISHED -j ACCEPT"
      ∷ codes "-I FORWARD -p tcp ! --syn -m conntrack --ctstate ESTABLISHED -j ACCEPT"
      ∷ [])
    ++ optional feat.udp (
        codes "-I INPUT -p udp -m conntrack --ctstate ESTABLISHED -j ACCEPT"
        ∷ codes "-I OUTPUT -p udp -m conntrack --ctstate ESTABLISHED -j ACCEPT"
        ∷ codes "-I FORWARD -p udp -m conntrack --ctstate ESTABLISHED -j ACCEPT"
        ∷ [])

abbrev pub needs_established : Flags → Bool
needs_established flags = not flags.noskel && flags.lstate

abbrev pub established_rules : Features → ℕ
established_rules feat = (if feat.tcp then 3 else 0) + (if feat.udp then 3 else 0)

abbrev pub closing : List Text
closing = codes "COMMIT" ∷ codes "EOF" ∷ []

abbrev pub finish : Flags → Made × Count → Written × Count
finish flags (made, failed) = (made.written, failed)
finish flags (made, aborted) = (made.written, aborted)
finish flags (made, rules n) =
    if needs_established flags
    then (
      made.written ++ (established made.feat ++ closing),
      rules (n + established_rules made.feat),
    )
    else (made.written ++ closing, rules n)

abbrev pub started : Text → Flags → Written → Made
started prog flags out = record {
  written = out ++ optional (not flags.noskel) (skeleton prog);
  feat = no_features;
}

unfoldable pub fg_iptrestore_common :
    Text → Family → Filter → Flags → Written → Outcome (Written × Count)
unfolding skeleton established
fg_iptrestore_common prog family filter flags out = do
  unrolled ← filter_unroll filter
  ok (finish flags (filtergen_cprod (cb_iptrestore family flags) unrolled (started prog flags out)))

abbrev pub fg_iptrestore : Filter → Flags → Written → Outcome (Written × Count)
fg_iptrestore = fg_iptrestore_common (codes "/sbin/iptables-restore") af_inet

abbrev pub fg_ip6trestore : Filter → Flags → Written → Outcome (Written × Count)
fg_ip6trestore = fg_iptrestore_common (codes "/sbin/ip6tables-restore") af_inet6

-- The switch on the policy of a flush, and what is written for each chain.
unfoldable pub policy_word : FilterType → Option Text
policy_word t_accept = some (codes "ACCEPT")
policy_word drop = some (codes "DROP")
policy_word t_reject = some (codes "REJECT")
policy_word _ = none

abbrev pub policy_line : Text → Text → Text
policy_line chain word = concat (codes ":" ∷ chain ∷ codes " " ∷ word ∷ codes " [0:0]" ∷ [])

abbrev pub flush_policies : Option Text → List Text
flush_policies none = []
flush_policies (some word) =
    policy_line (codes "INPUT") word
    ∷ policy_line (codes "OUTPUT") word
    ∷ policy_line (codes "FORWARD") word
    ∷ []

abbrev pub flushed : Option Text → Count
flushed none = failed
flushed (some _) = rules 0

unfoldable pub flush_iptrestore : FilterType → Written → Written × Count
unfolding policy_word
flush_iptrestore policy out = (
  out ++ codes "CHAINS=\"INPUT OUTPUT FORWARD\"" ∷ [] ∷ flush_policies (policy_word policy),
  flushed (policy_word policy),
)
