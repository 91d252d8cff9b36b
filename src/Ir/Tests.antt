-- ===== src/Ir/Tests.antt =====
-- The representation that the test program of ir/emit.c builds, with the expressions filled in.
use filtergen.Base.{none, some, [], ◌∷◌, codes, ◌++◌, ◌≡◌, refl}
use filtergen.Ir.{
  Ir, ir_rule, no_ir_rule, ir_expr, no_expr, ir_expr_value, ir_expr_unary, ir_expr_binary,
  ir_op_and, ir_op_pred, ir_op_none, ir_action, ir_accept, ir_drop, IrExpr, emit_ir,
}
use filtergen.Ir.Nested.{layout, headed, nest_rule, emit_ir-layout}

abbrev web : IrExpr
web =
    ir_expr ir_expr_unary (codes "dport") ir_op_pred
      (ir_expr ir_expr_value (codes "80") ir_op_none no_expr no_expr) no_expr

abbrev two_rules : Ir
two_rules = record {
  filter =
      ir_rule (ir_expr ir_expr_binary [] ir_op_and web no_expr)
        (ir_action ir_accept (some (codes "bim bam bom")))
        (ir_rule no_expr (ir_action ir_drop none) no_ir_rule);
  nat = no_ir_rule;
  mangle = no_ir_rule;
}

drop_prints :
    (emit_ir
      record {
        filter = ir_rule no_expr (ir_action ir_drop none) no_ir_rule;
        nat = no_ir_rule;
        mangle = no_ir_rule;
      }
      record { indent = 0; lines = [] }).lines
    ≡ codes "(ir"
      ∷ codes " (rule"
      ∷ codes "  (action"
      ∷ codes "   drop"
      ∷ codes "  )"
      ∷ codes " )"
      ∷ codes ")"
      ∷ []
unfolding emit_ir
drop_prints = refl

emit_ir-layout_example :
    emit_ir two_rules record { indent = 2; lines = codes "before" ∷ [] } ≡ record {
      indent = 2;
      lines =
          (codes "before" ∷ [])
          ++ layout 2 (headed (codes "(ir") (nest_rule (Ir.filter two_rules)));
    }
emit_ir-layout_example = emit_ir-layout two_rules 2 (codes "before" ∷ [])
