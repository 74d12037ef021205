-- ===== src/Proc.antt =====
-- lmakelib.cpp: the make.proc functions.
pub mod Output
pub mod Stream
pub mod Lines
pub mod Flush
pub mod Chunks
pub mod Drain
pub mod Invariant
pub mod Limits
pub mod Spawn
pub mod Start
pub mod Run
pub mod Whole
