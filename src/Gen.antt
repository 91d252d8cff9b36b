-- ===== src/Gen.antt =====
-- gen.h and gen.c: from the unrolled tree to one call of the back end for each rule.
pub mod Entry
pub mod Check
pub mod Apply
pub mod Compile
mod Tests
