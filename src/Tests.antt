-- ===== src/Tests.antt =====
-- Concrete inputs on which the theorems are applied.
mod Arith
mod Ir
mod Constants
mod Ranges
mod Programs
mod Diffs
mod Memory
mod Structures
