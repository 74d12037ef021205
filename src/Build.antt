-- ===== src/Build.antt =====
-- lua/mkinit.lua: the build engine, its targets, jobs and goals.
pub mod Target
pub mod Depends
pub mod Cycles
pub mod Engine
pub mod Update
pub mod Jobs
pub mod Goals
pub mod Grows
pub mod Tally
pub mod Safe
pub mod Visits
pub mod Commands
pub mod Concludes
pub mod Brings
pub mod Rounds
pub mod Dispatch
pub mod Starts
pub mod Tires
pub mod Returns
pub mod Ends
pub mod Total
pub mod Same
pub mod Sound
pub mod Decides
pub mod Complete
pub mod Edges
pub mod Acyclic
pub mod Kinds
pub mod Steps
pub mod Frames
pub mod Once
pub mod Within
pub mod Refines
pub mod Matches
pub mod Busy
pub mod Runs
pub mod Chains
pub mod Waits
pub mod Waiting
pub mod Rests
pub mod Settles
pub mod Spends
pub mod Turns
pub mod Tours
pub mod Halts
pub mod Fresh
pub mod Terminates
pub mod Lessens
pub mod Finishes
pub mod Successes
