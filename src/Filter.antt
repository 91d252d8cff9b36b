-- ===== src/Filter.antt =====
-- filter.h and filter.c: the parse tree of filters, its constructors and the passes over it.
pub mod Types
pub mod Tree
pub mod Shape
pub mod Build
pub mod Append
pub mod Negation
pub mod Unroll
pub mod Targets
pub mod Groups
pub mod Trails
pub mod Packets
pub mod Factor
pub mod Plain
mod Tests
