-- ===== src/Lib.antt =====
-- A verification library for the core of the translation validator: the semantics that the IR gives
-- to integer instructions, the term builder under it, the packed pointers and bytes and the alias
-- sets of the memory, the attributes, and the comparison and the value ranges of tv-next.
--
-- The program. An optimisation is checked by executing both functions symbolically: each
-- instruction (ir/instr.cpp) turns the StateValues of its operands (ir/state_value.cpp), a value
-- and the condition under which it is not poison, into a new one, and adds the conditions under
-- which it is undefined to the state. The terms are built by smt/expr.cpp, whose methods stand for
-- operations that the solver does not have (saturation, counting, tests of overflow) and shorten
-- what they can see from the syntax. The memory (ir/memory.cpp) keeps bytes as packed words, with
-- pointers packed by ir/pointer.cpp, and narrows an access by an alias set. Attributes
-- (ir/attrs.cpp) say what a call may do and when two signatures refine each other.
-- tv-next/diff.cpp compares two functions and groups what differs into regions to check.
-- tv-next/range.cpp computes intervals, known bits and well-definedness of LLVM values, which the
-- proposer turns into assumptions on the units that it checks.
--
-- The files, and what they model:
--   Prelude   shared names, lists, integers, powers of two, bit operations, division
--   Smt       smt/expr.cpp: Bv (constants, casts), Overflow (add_no_soverflow to lshr_exact),
--             Saturate (sadd_sat to ushl_sat), Order (umin to abs, round_up), Funnel (fshl, fshr),
--             Fixed (smul_fix to umul_fix_sat), Count (isPowerOf2 to pdep), Divide (sdiv to urem);
--             smt/exprs.h: Exprs (DisjointExpr, the application of a FunctionExpr)
--   Ir        ir/instr.cpp: BinOp (BinOp::toSMT, div_ub), ScalarOps (UnaryOp, TernaryOp),
--             ConversionOp, Reduction (UnaryReductionOp), Vector (lanes, Select, ShuffleVector)
--             and ICmp; ir/constant.cpp: Constant (ConstantBinOp);
--             ir/state_value.cpp: StateValue;
--             ir/memory.cpp: AliasSet (Memory::AliasSet), Byte (Byte, bitsByte and the paddings),
--             Blocks (is_globalvar to always_nowrite, disjoint, load_bv, the bits of store_bv);
--             ir/pointer.cpp: Pointer; ir/globals.h: Config (the global sizes and modes);
--             ir/attrs.cpp: MemoryAccess, ParamAttrs, FnAttrs;
--             ir/type.cpp: AggregateType (aggregateVals, extract)
--   TvNext    tv-next/range.cpp: Range (KnownRange, transfer by opcode, computeRanges), KnownBits
--             (what it takes from LLVM), Sound (the entries against the values of a run);
--             tv-next/compose.cpp: Compose (composeVerdicts);
--             tv-next/diff.cpp: Diff (computeDiffRegions)
--   Util      util/compiler.cpp: logarithms, saturated and rounded arithmetic;
--             util/unionfind.cpp: UnionFind; util/sort.cpp: Sort (top_sort)
--   Tests     the inputs on which the theorems are applied
--
-- How values are modelled. A term is its value, a number below 2^w, and the width is an argument
-- `w`, so nothing depends on a fixed width. The solver's primitives, and LLVM's APInt, have
-- the meaning of SMT-LIB's theory of bit vectors (Smt/Bv), also for a shift by the width or more.
-- What the code reads off the syntax of a term (is it a constant, how many leading zeros does it
-- show) is a record; the theorems assume that what the record says is true of the value. Poison and
-- undefined behaviour are Boolean results. The divisions read their divisor by State::getVal, which
-- makes poison undefined behaviour; the model is of the first such use of a value, after which the
-- state does not add the condition again. Loops over the bits of a value are recursions on the
-- number of rounds, so no fuel is needed; bit_width recurs on the 64 bits of its argument. The loop
-- of UnionFind::find runs on one more round than the vector is long, which is enough in a forest,
-- since an element is no deeper than there are elements that are not roots. The visits of top_sort
-- inside each other are at most one more than the nodes, since each but the last marks one.
--
-- llvm::KnownBits and llvm::ConstantRange are not part of the repository: the ranges are over a
-- record of their operations, and the theorems assume the contract that LLVM documents, that the
-- masks of a result agree with every value that the operation can give on values of the width; for
-- an addition or a subtraction with nsw or nuw, only where it does not wrap. An entry of the map of
-- ranges is looked up by the id of a value, and a constant has no entry of its own.
--
-- The values and domains of a DisjointExpr are an interface of the order and the builders that it
-- calls; its meaning in one assignment is what the solver's terms promise of them.
--
-- Of an llvm::Instruction the comparison reads the text that LLVM prints, the opcode, the operands
-- and the name, which are the fields of a record.
--
-- Not modelled: floats, aggregates but for their layout and the vectors named above, of pointers
-- and of the memory what asks for the blocks, the solver, the front ends and the tools. They rest
-- on the solver's theories, on LLVM, or on the state of a symbolic execution.
pub mod Prelude
pub mod Smt
pub mod Ir
pub mod TvNext
pub mod Util
mod Tests
