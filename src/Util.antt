-- ===== src/Util.antt =====
-- util/: the arithmetic on 64-bit numbers, the union of classes and the topological sort.
pub mod Compiler
pub mod UnionFind
pub mod Sort
