-- ===== src/Tests/Ranges.antt =====
-- Inputs for the tests of the ranges of the opcodes.
