-- ===== src/Save/Policies.antt =====
-- input/iptables-save/glue.c: what is left of a file of iptables-save.
use filtergen.Base.{
  Bool, true, false, Option, none, some, Text, List, [], ◌∷◌, ◌++◌, ◌≡◌, ◌≢◌, refl, ap, ap₂, ◌∙◌,
  sym, if◌then◌else◌, is_set,
}
use filtergen.Filter.Tree.{Filter, null, ptr}
use filtergen.Filter.Build.{new_filter_device, new_filter_target}
use filtergen.Glue.Links.{link_next, link_child}
use filtergen.Save.Tree.{
  IptsOption, in_interface_option, jump_option, NotOption, OptionList, no_options, option_list,
  IptsRule, IptsRuleList, no_ipts_rules, rule_list, Table, TableList, table_list,
}
use filtergen.Save.{
  ipts_convert_option, ipts_negated_if, ipts_convert_not_option, extend_options,
  ipts_convert_option_list, policy_filter, convert_policy, ipts_convert_rule, extend_rules,
  ipts_convert_rule_list, ipts_convert_table, ipts_convert_table_list, ipts_convert,
}

-- The chains whose policy is declared, with the policy.
abbrev pub declares : Text → Option Text → List (Text × Text)
declares chain none = []
declares chain (some policy) = (chain, policy) ∷ []

abbrev pub declared : IptsRuleList → List (Text × Text)
declared no_ipts_rules = []
declared (rule_list list n) = declared list ++ declares n.chain n.policy

-- The first rule declares a policy.
abbrev pub begins_declared : IptsRuleList → Bool
begins_declared no_ipts_rules = false
begins_declared (rule_list no_ipts_rules n) = is_set n.policy
begins_declared (rule_list (rule_list list m) n) = begins_declared (rule_list list m)

-- A rule for each declaration, one next to the other.
abbrev pub policies : List (Text × Text) → Filter
policies [] = null
policies (d ∷ ds) = link_next (policy_filter d.0 d.1) (policies ds)

link_nothing : (f : Filter) → link_next f null ≡ f
unfolding link_next
link_nothing null = refl
link_nothing (ptr nd n) = ap (ptr nd) (link_nothing n)

link_assoc : (f g h : Filter) → link_next (link_next f g) h ≡ link_next f (link_next g h)
unfolding link_next
link_assoc null g h = refl
link_assoc (ptr nd n) g h = ap (ptr nd) (link_assoc n g h)

policies-append :
    (a b : List (Text × Text)) → policies (a ++ b) ≡ link_next (policies a) (policies b)
unfolding link_next
policies-append [] b = refl
policies-append (d ∷ a) b =
    ap (link_next (policy_filter d.0 d.1)) (policies-append a b)
    ∙ sym (link_assoc (policy_filter d.0 d.1) (policies a) (policies b))

link_next_present : (f g : Filter) → f ≢ null → link_next f g ≢ null
unfolding link_next
link_next_present null g h = absurd (h refl)
link_next_present (ptr nd n) g h = λ e. cc

policy_present : (d : Text × Text) → policy_filter d.0 d.1 ≢ null
unfolding new_filter_device new_filter_target link_child
policy_present d = λ e. cc

declares_present :
    (chain : Text) (policy : Option Text)
    → is_set policy ≡ true
    → policies (declares chain policy) ≢ null
declares_present chain none h = cc
declares_present chain (some p) h = link_next_present _ null (policy_present (chain, p))

declared_present : (l : IptsRuleList) → begins_declared l ≡ true → policies (declared l) ≢ null
declared_present no_ipts_rules h = cc
declared_present (rule_list no_ipts_rules n) h = declares_present n.chain n.policy h
declared_present (rule_list (rule_list l m) n) h =
    let before = declared (rule_list l m) in
    let behind = declares n.chain n.policy in
    λ e.
      link_next_present (policies before) (policies behind) (declared_present (rule_list l m) h)
        (sym (policies-append before behind) ∙ e)

negated_null : (b : Bool) → ipts_negated_if b null ≡ null
negated_null true = refl
negated_null false = refl

option_null : (o : IptsOption) (out : Text) → (ipts_convert_option o out).0 ≡ null
unfolding ipts_convert_option
option_null (in_interface_option n) out = refl
option_null (jump_option n) out = refl
option_null o out = refl

not_option_null :
    (b : Bool) (o : Option IptsOption) (out : Text) → (ipts_convert_not_option b o out).0 ≡ null
unfolding ipts_convert_not_option
not_option_null b none out = refl
not_option_null b (some o) out = ap (ipts_negated_if b) (option_null o out) ∙ negated_null b

extend_options_null :
    (r : Filter × Text) (n : NotOption) → r.0 ≡ null → (extend_options r n).0 ≡ null
extend_options_null (null, out) n h = refl
extend_options_null (ptr nd next, out) n h = cc

-- No list of options is converted to anything.
option_list_null : (l : OptionList) (out : Text) → (ipts_convert_option_list l out).0 ≡ null
unfolding ipts_convert_option_list
option_list_null no_options out = refl
option_list_null (option_list no_options n) out = not_option_null n.neg n.option out
option_list_null (option_list (option_list l m) n) out =
    extend_options_null _ n (option_list_null (option_list l m) out)

rule_declares :
    (chain : Text) (policy : Option Text) (l : OptionList) (out : Text)
    → (convert_policy chain policy l out).0 ≡ policies (declares chain policy)
rule_declares chain none l out = option_list_null l out
rule_declares chain (some policy) l out = sym (link_nothing (policy_filter chain policy))

first_declares :
    (chain : Text) (policy : Option Text)
    → policies (declares chain policy)
      ≡ (if is_set policy then policies (declares chain policy) else null)
first_declares chain none = refl
first_declares chain (some p) = refl

extend_declared :
    (r : Filter × Text) (n : IptsRule) (b : Bool) (ds : List (Text × Text))
    → r.0 ≡ (if b then policies ds else null)
    → (b ≡ true → policies ds ≢ null)
    → (extend_rules r n).0 ≡ (if b then policies (ds ++ declares n.chain n.policy) else null)
unfolding ipts_convert_rule
extend_declared (null, out) n true ds h k = absurd (k refl (sym h))
extend_declared (null, out) n false ds h k = refl
extend_declared (ptr nd next, out) n true ds h k =
    ap₂ link_next h (rule_declares n.chain n.policy n.option_list out)
    ∙ sym (policies-append ds (declares n.chain n.policy))
extend_declared (ptr nd next, out) n false ds h k = cc

rules_declare :
    (l : IptsRuleList) (out : Text)
    → (ipts_convert_rule_list l out).0 ≡ (if begins_declared l then policies (declared l) else null)
unfolding ipts_convert_rule_list ipts_convert_rule
rules_declare no_ipts_rules out = refl
rules_declare (rule_list no_ipts_rules n) out =
    rule_declares n.chain n.policy n.option_list out ∙ first_declares n.chain n.policy
rules_declare (rule_list (rule_list l m) n) out =
    extend_declared _ n (begins_declared (rule_list l m)) (declared (rule_list l m))
      (rules_declare (rule_list l m) out) (declared_present (rule_list l m))

-- What `ipts_convert` makes of a file with tables: of the last table, and only if its first rule
-- declares a chain's policy, one rule for each declaration of a policy, in order; nothing of all
-- other rules, whatever their options are.
pub only_policies_left :
    (tables : TableList) (last : Table) (out : Text)
    → (ipts_convert (table_list tables last) out).0
      ≡ (if begins_declared last.rule_list then policies (declared last.rule_list) else null)
unfolding ipts_convert ipts_convert_table_list ipts_convert_table
only_policies_left tables last out =
    rules_declare last.rule_list (ipts_convert_table_list tables out).1
