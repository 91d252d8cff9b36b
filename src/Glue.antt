-- ===== src/Glue.antt =====
-- input/filtergen/ast.h and glue.c: from the syntax tree of the filtergen language to filters.
pub mod Ast
pub mod Links
pub mod Arguments
pub mod Convert
pub mod Full
pub mod Built
pub mod Policy
pub mod Chains
pub mod Lost
mod Tests
mod ChainTests
