-- ===== src/Ir.antt =====
-- ir/ir.h and ir/emit.c: the internal representation of a packet filter, and its printer. `indent`,
-- which is global, and the lines printed so far are passed along. A null pointer for a string that is
-- printed, and tags that the enumerations do not have, are left out.
mod Nested
mod Tests
use filtergen.Base.{ℕ, zero, suc, ◌+◌, ◌-◌, Option, none, some, Text, List, [], ◌∷◌, ◌++◌, codes}

pub data IrExprType : Type 0 where
  ir_expr_none ir_expr_value ir_expr_unary ir_expr_binary : IrExprType

pub data IrOperator : Type 0 where
  ir_op_none ir_op_and ir_op_or ir_op_not ir_op_pred : IrOperator

-- `struct ir_expr_s *`: the type, the value, the operator and the two children.
pub data IrExpr : Type 0 where
  no_expr : IrExpr
  ir_expr : IrExprType → Text → IrOperator → IrExpr → IrExpr → IrExpr

pub data IrActionType : Type 0 where
  ir_accept ir_drop ir_reject ir_log : IrActionType

pub data IrAction : Type 0 where
  no_action : IrAction
  ir_action : IrActionType → Option Text → IrAction

pub data IrRule : Type 0 where
  no_ir_rule : IrRule
  ir_rule : IrExpr → IrAction → IrRule → IrRule

-- `struct ir_s`; the printer looks at `filter` only.
pub record Ir : Type 0 where
  pub filter : IrRule
  pub nat : IrRule
  pub mangle : IrRule

pub record Printing : Type 0 where
  pub indent : ℕ
  pub lines : List Text

-- `for (i = 0; i < indent; i++) printf(" "); printf("%s\n", x);`
abbrev pub spaced : ℕ → Text → Text
spaced zero x = x
spaced (suc n) x = b' ' ∷ spaced n x

abbrev pub eprint : Text → Printing → Printing
eprint x st = record { indent = st.indent; lines = st.lines ++ spaced st.indent x ∷ [] }

-- `indent += indentsize`, the body, `indent -= indentsize`.
abbrev pub deeper : Printing → Printing
deeper st = record { indent = st.indent + 1; lines = st.lines }

abbrev pub shallower : Printing → Printing
shallower st = record { indent = st.indent - 1; lines = st.lines }

abbrev pub indented : (Printing → Printing) → Printing → Printing
indented body st = shallower (body (deeper st))

-- What stands between the lines of an expression, given how its children are printed.
abbrev pub emit_unary : IrOperator → Text → (Printing → Printing) → Printing → Printing
emit_unary ir_op_not value left st = eprint (codes ")") (indented left (eprint (codes "(not") st))
emit_unary ir_op_pred value left st =
    eprint (codes ")") (indented left (eprint value (eprint (codes "(pred") st)))
emit_unary _ value left st = st

abbrev pub emit_binary :
    IrOperator → (Printing → Printing) → (Printing → Printing) → Printing → Printing
emit_binary ir_op_and left right st =
    eprint (codes ")") (indented (λ s. right (left s)) (eprint (codes "(and") st))
emit_binary ir_op_or left right st =
    eprint (codes ")") (indented (λ s. right (left s)) (eprint (codes "(or") st))
emit_binary _ left right st = st

abbrev pub emit_by_type :
    IrExprType
    → Text
    → IrOperator
    → (Printing → Printing)
    → (Printing → Printing)
    → Printing
    → Printing
emit_by_type ir_expr_value value op left right st = eprint value st
emit_by_type ir_expr_unary value op left right st = emit_unary op value left st
emit_by_type ir_expr_binary value op left right st = emit_binary op left right st
emit_by_type ir_expr_none value op left right st = st

unfoldable pub emit_ir_expr : IrExpr → Printing → Printing
emit_ir_expr no_expr st = st
emit_ir_expr (ir_expr type value op l r) st = eprint (codes ")") (
    indented (emit_by_type type value op (emit_ir_expr l) (emit_ir_expr r))
      (eprint (codes "(expr") st))

abbrev pub action_word : IrActionType → Text
action_word ir_accept = codes "accept"
action_word ir_drop = codes "drop"
action_word ir_reject = codes "reject"
action_word ir_log = codes "log"

abbrev pub eprint_if_set : Option Text → Printing → Printing
eprint_if_set none st = st
eprint_if_set (some x) st = eprint x st

abbrev pub emit_ir_action : IrAction → Printing → Printing
emit_ir_action no_action st = st
emit_ir_action (ir_action type extra) st = eprint (codes ")") (
    indented (λ s. eprint_if_set extra (eprint (action_word type) s)) (eprint (codes "(action") st))

-- The rules behind a rule are printed inside it.
unfoldable pub emit_ir_rule : IrRule → Printing → Printing
unfolding emit_ir_expr
emit_ir_rule no_ir_rule st = st
emit_ir_rule (ir_rule e a next) st = eprint (codes ")") (
    indented (λ s. emit_ir_rule next (emit_ir_action a (emit_ir_expr e s)))
      (eprint (codes "(rule") st))

unfoldable pub emit_ir : Ir → Printing → Printing
unfolding emit_ir_rule
emit_ir ir st = eprint (codes ")") (indented (emit_ir_rule ir.filter) (eprint (codes "(ir") st))
