-- ===== src/Ir.antt =====
-- ir/: the meaning that the IR gives to its instructions; pointers, bytes, blocks and alias sets of
-- the memory; and attributes.
pub mod StateValue
pub mod BinOp
pub mod AliasSet
pub mod ICmp
pub mod ConversionOp
pub mod ScalarOps
pub mod Reduction
pub mod Vector
pub mod Constant
pub mod MemoryAccess
pub mod ParamAttrs
pub mod Config
pub mod Pointer
pub mod Byte
pub mod Blocks
pub mod AggregateType
pub mod FnAttrs
