-- ===== src/TvNext.antt =====
-- tv-next/: the analysis that derives the ranges of the values of a unit.
pub mod KnownBits
pub mod Range
pub mod Sound
pub mod Compose
pub mod Diff
