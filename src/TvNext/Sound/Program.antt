-- ===== src/TvNext/Sound/Program.antt =====
-- About computeRanges (tv-next/range.cpp) on a sequence of instructions, against a run.
use alive_next_deprecated.TvNext.Range.Defs.{Range}
