-- ===== src/TvNext/Range.antt =====
-- tv-next/range: what is known of a value, and what each instruction makes of it.
--
-- An APInt of width `bw` is the number that its bits spell; `+`, `*` and `<<` wrap. A range map is
-- a function from value ids. `Defs` has the helpers, the others one function for each opcode.
pub mod Defs
pub mod Bitwise
pub mod Shift
pub mod Arith
pub mod Cast
pub mod Transfer
