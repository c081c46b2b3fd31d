-- ===== src/Smt.antt =====
-- smt/expr.cpp: the bit-vector operations that expr builds from the solver's primitives.
--
-- A term is modelled by the value that it takes in a model of the solver: a bit-vector of width
-- `w` by a number below `2 ^ w`, a Boolean term by a `Bool`. The solver (Z3) is not part of the
-- repository; its primitives are used with the meaning that SMT-LIB documents (`Bv`).
pub mod Bv
pub mod Overflow
pub mod Saturate
pub mod Order
pub mod Funnel
pub mod Fixed
pub mod Count
pub mod Divide
pub mod Exprs
