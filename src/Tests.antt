-- ===== src/Tests.antt =====
-- Known results, and each theorem at an input that meets its hypotheses.
mod Digests
mod Output
mod Arguments
mod Starts
mod Clock
mod Folders
mod Paths
mod Builds
mod Sequences
mod Hosts
