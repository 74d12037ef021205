-- ===== src/CommandLine.antt =====
-- make.cpp: the command line and the main function.
pub mod State
pub mod Parse
pub mod Clusters
pub mod Main
pub mod Passes
pub mod Failures
