-- ===== src/TvNext/Sound.antt =====
-- What an entry of the range map claims of a value, and the entries of the opcodes against it.
pub mod Claims
pub mod Intervals
pub mod ArithIntervals
pub mod Run
pub mod Opcodes
pub mod Program
