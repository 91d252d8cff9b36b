-- ===== src/Ir/Nested.antt =====
-- ir/emit.c against nested lists.
use filtergen.Base.{
  ℕ, ◌+◌, ◌-◌, Option, none, some, Text, List, [], ◌∷◌, ◌++◌, codes, ◌≡◌, refl, sym, ap, ◌∙◌, arith,
}
use mathlib.Core.List.{append_assoc, append-nil}
use filtergen.Ir.{
  IrExprType, ir_expr_none, ir_expr_value, ir_expr_unary, ir_expr_binary, IrOperator, ir_op_none,
  ir_op_and, ir_op_or, ir_op_not, ir_op_pred, IrExpr, no_expr, ir_expr, IrAction, no_action,
  ir_action, IrRule, no_ir_rule, ir_rule, Ir, Printing, spaced, eprint, shallower, indented,
  emit_unary, emit_binary, emit_by_type, emit_ir_expr, action_word, emit_ir_action, emit_ir_rule,
  emit_ir,
}

-- A list of words and of lists, each list behind the lines that open it.
pub data Nest : Type 0 where
  end : Nest
  word : Text → Nest → Nest
  group : List Text → Nest → Nest → Nest

abbrev pub all_spaced : ℕ → List Text → List Text
all_spaced n [] = []
all_spaced n (x ∷ xs) = spaced n x ∷ all_spaced n xs

-- A list stands one column to the right of what opens and closes it.
unfoldable pub layout : ℕ → Nest → List Text
layout n end = []
layout n (word x t) = spaced n x ∷ layout n t
layout n (group heads inner t) =
    all_spaced n heads ++ (layout (n + 1) inner ++ spaced n (codes ")") ∷ layout n t)

unfoldable pub beside : Nest → Nest → Nest
beside end u = u
beside (word x t) u = word x (beside t u)
beside (group heads inner t) u = group heads inner (beside t u)

abbrev pub headed : Text → Nest → Nest
headed x t = group (x ∷ []) t end

abbrev pub nest_unary : IrOperator → Text → Nest → Nest
nest_unary ir_op_not value left = headed (codes "(not") left
nest_unary ir_op_pred value left = group (codes "(pred" ∷ value ∷ []) left end
nest_unary _ value left = end

abbrev pub nest_binary : IrOperator → Nest → Nest
nest_binary ir_op_and both = headed (codes "(and") both
nest_binary ir_op_or both = headed (codes "(or") both
nest_binary _ both = end

abbrev pub nest_by_type : IrExprType → Text → IrOperator → Nest → Nest → Nest
unfolding beside
nest_by_type ir_expr_value value op left right = word value end
nest_by_type ir_expr_unary value op left right = nest_unary op value left
nest_by_type ir_expr_binary value op left right = nest_binary op (beside left right)
nest_by_type ir_expr_none value op left right = end

unfoldable pub nest_expr : IrExpr → Nest
unfolding beside
nest_expr no_expr = end
nest_expr (ir_expr type value op l r) =
    headed (codes "(expr") (nest_by_type type value op (nest_expr l) (nest_expr r))

abbrev pub nest_options : Option Text → Nest
nest_options none = end
nest_options (some x) = word x end

abbrev pub nest_action : IrAction → Nest
nest_action no_action = end
nest_action (ir_action type extra) =
    headed (codes "(action") (word (action_word type) (nest_options extra))

unfoldable pub nest_rule : IrRule → Nest
unfolding beside nest_expr
nest_rule no_ir_rule = end
nest_rule (ir_rule e a next) =
    headed (codes "(rule") (beside (nest_expr e) (beside (nest_action a) (nest_rule next)))

-- A run prints a nest, at any depth and behind any lines.
abbrev Prints : (Printing → Printing) → Nest → Type 0
unfolding layout
Prints run t =
    (n : ℕ) (out : List Text)
    → run record { indent = n; lines = out } ≡ record { indent = n; lines = out ++ layout n t }

layout-beside : (n : ℕ) (t u : Nest) → layout n (beside t u) ≡ layout n t ++ layout n u
unfolding layout beside
layout-beside n end u = refl
layout-beside n (word x t) u = ap (λ ls. spaced n x ∷ ls) (layout-beside n t u)
layout-beside n (group heads inner t) u =
    let opens = all_spaced n heads in
    let inside = layout (n + 1) inner in
    let closes = spaced n (codes ")") in
    ap (λ ls. opens ++ (inside ++ closes ∷ ls)) (layout-beside n t u)
    ∙ ap (λ ls. opens ++ ls) (sym (append_assoc inside (closes ∷ layout n t) (layout n u)))
    ∙ sym (append_assoc opens (inside ++ closes ∷ layout n t) (layout n u))

abbrev at_depth : ℕ → List Text → Printing
at_depth n out = record { indent = n; lines = out }

nothing_Prints : Prints (λ s. s) end
unfolding Prints layout
nothing_Prints n out = ap (at_depth n) (sym (append-nil out))

word_Prints : (x : Text) → Prints (eprint x) (word x end)
unfolding Prints layout
word_Prints x n out = refl

then_Prints :
    (f g : Printing → Printing) (t u : Nest)
    → Prints f t
    → Prints g u
    → Prints (λ s. g (f s)) (beside t u)
unfolding Prints layout
then_Prints f g t u pf pg n out =
    ap g (pf n out)
    ∙ pg n (out ++ layout n t)
    ∙ ap (at_depth n) (
        append_assoc out (layout n t) (layout n u)
        ∙ ap (λ ls. out ++ ls) (sym (layout-beside n t u)))

abbrev eprint_all : List Text → Printing → Printing
eprint_all [] s = s
eprint_all (x ∷ xs) s = eprint_all xs (eprint x s)

eprint_all_lem :
    (heads : List Text) (n : ℕ) (out : List Text)
    → eprint_all heads (at_depth n out) ≡ at_depth n (out ++ all_spaced n heads)
eprint_all_lem [] n out = ap (at_depth n) (sym (append-nil out))
eprint_all_lem (x ∷ xs) n out =
    eprint_all_lem xs n (out ++ spaced n x ∷ [])
    ∙ ap (at_depth n) (append_assoc out (spaced n x ∷ []) (all_spaced n xs))

group_Prints :
    (heads : List Text) (f : Printing → Printing) (t : Nest)
    → Prints f t
    → Prints (λ s. eprint (codes ")") (indented f (eprint_all heads s))) (group heads t end)
unfolding Prints layout
group_Prints heads f t pf n out =
    let opens = all_spaced n heads in
    let inside = layout (n + 1) t in
    let back : n + 1 - 1 ≡ n = omega arith in
    ap (λ s. eprint (codes ")") (indented f s)) (eprint_all_lem heads n out)
    ∙ ap (λ s. eprint (codes ")") (shallower s)) (pf (n + 1) (out ++ opens))
    ∙ ap (λ m. at_depth m (out ++ opens ++ inside ++ spaced m (codes ")") ∷ [])) back
    ∙ ap (at_depth n) (
        append_assoc (out ++ opens) inside (spaced n (codes ")") ∷ [])
        ∙ append_assoc out opens (inside ++ spaced n (codes ")") ∷ []))

unary_Prints :
    (op : IrOperator) (value : Text) (left : Printing → Printing) (t : Nest)
    → Prints left t
    → Prints (emit_unary op value left) (nest_unary op value t)
unary_Prints ir_op_not value left t p = group_Prints (codes "(not" ∷ []) left t p
unary_Prints ir_op_pred value left t p = group_Prints (codes "(pred" ∷ value ∷ []) left t p
unary_Prints ir_op_none value left t p = nothing_Prints
unary_Prints ir_op_and value left t p = nothing_Prints
unary_Prints ir_op_or value left t p = nothing_Prints

binary_Prints :
    (op : IrOperator) (left right : Printing → Printing) (t u : Nest)
    → Prints left t
    → Prints right u
    → Prints (emit_binary op left right) (nest_binary op (beside t u))
binary_Prints ir_op_and left right t u p q =
    group_Prints (codes "(and" ∷ []) (λ s. right (left s)) (beside t u)
      (then_Prints left right t u p q)
binary_Prints ir_op_or left right t u p q =
    group_Prints (codes "(or" ∷ []) (λ s. right (left s)) (beside t u)
      (then_Prints left right t u p q)
binary_Prints ir_op_none left right t u p q = nothing_Prints
binary_Prints ir_op_not left right t u p q = nothing_Prints
binary_Prints ir_op_pred left right t u p q = nothing_Prints

by_type_Prints :
    (type : IrExprType) (value : Text) (op : IrOperator) (left right : Printing → Printing)
    (t u : Nest)
    → Prints left t
    → Prints right u
    → Prints (emit_by_type type value op left right) (nest_by_type type value op t u)
unfolding nest_by_type
by_type_Prints ir_expr_value value op left right t u p q = word_Prints value
by_type_Prints ir_expr_unary value op left right t u p q = unary_Prints op value left t p
by_type_Prints ir_expr_binary value op left right t u p q = binary_Prints op left right t u p q
by_type_Prints ir_expr_none value op left right t u p q = nothing_Prints

expr_Prints : (e : IrExpr) → Prints (emit_ir_expr e) (nest_expr e)
unfolding emit_ir_expr nest_expr
expr_Prints no_expr = nothing_Prints
expr_Prints (ir_expr type value op l r) =
    group_Prints (codes "(expr" ∷ []) (emit_by_type type value op (emit_ir_expr l) (emit_ir_expr r))
      (nest_by_type type value op (nest_expr l) (nest_expr r))
      (by_type_Prints type value op (emit_ir_expr l) (emit_ir_expr r) (nest_expr l) (nest_expr r)
        (expr_Prints l) (expr_Prints r))

action_Prints : (a : IrAction) → Prints (emit_ir_action a) (nest_action a)
unfolding Prints layout
action_Prints no_action = nothing_Prints
action_Prints (ir_action type none) =
    group_Prints (codes "(action" ∷ []) (eprint (action_word type)) (word (action_word type) end)
      (word_Prints (action_word type))
action_Prints (ir_action type (some x)) =
    group_Prints (codes "(action" ∷ []) (λ s. eprint x (eprint (action_word type) s))
      (word (action_word type) (word x end))
      (λ n out.
        ap (at_depth n) (append_assoc out (spaced n (action_word type) ∷ []) (spaced n x ∷ [])))

rule_Prints : (r : IrRule) → Prints (emit_ir_rule r) (nest_rule r)
unfolding emit_ir_rule nest_rule
rule_Prints no_ir_rule = nothing_Prints
rule_Prints (ir_rule e a next) =
    group_Prints (codes "(rule" ∷ []) (λ s. emit_ir_rule next (emit_ir_action a (emit_ir_expr e s)))
      (beside (nest_expr e) (beside (nest_action a) (nest_rule next)))
      (then_Prints (emit_ir_expr e) (λ s. emit_ir_rule next (emit_ir_action a s)) (nest_expr e)
        (beside (nest_action a) (nest_rule next)) (expr_Prints e)
        (then_Prints (emit_ir_action a) (emit_ir_rule next) (nest_action a) (nest_rule next)
          (action_Prints a) (rule_Prints next)))

-- At any indentation and behind any lines, the printer of the internal representation adds the
-- filter's rules as nested lists, each a column to the right of the lines around it and closed in
-- the column where it was opened, and leaves the global indentation as it was.
pub emit_ir-layout :
    (ir : Ir) (n : ℕ) (out : List Text)
    → emit_ir ir record { indent = n; lines = out }
      ≡ record { indent = n; lines = out ++ layout n (headed (codes "(ir") (nest_rule ir.filter)) }
unfolding Prints emit_ir
emit_ir-layout ir n out =
    group_Prints (codes "(ir" ∷ []) (emit_ir_rule ir.filter) (nest_rule ir.filter)
      (rule_Prints ir.filter) n out
