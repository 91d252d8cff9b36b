-- ===== src/Syntax.antt =====
-- The filtergen language as text: scanner.l, the grammar of parser.y, and the printer of syntax
-- trees in t/emit.c.
pub mod Scanner
pub mod Grammar
pub mod Printer
pub mod Words
pub mod Printable
mod Arguments
mod RoundTrip
mod Comments
mod Tests
