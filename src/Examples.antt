-- ===== src/Examples.antt =====
-- The theorems at concrete inputs, and runs of the code on them.
pub mod Marking
pub mod Collecting
pub mod Sweeping
pub mod Tables
pub mod Running
pub mod Rooting
pub mod Looking
pub mod Calling
pub mod Scanning
pub mod Stopping
pub mod Waiting
pub mod Ending
pub mod Cycling
pub mod Requesting
pub mod Signalling
pub mod Spawned
pub mod Suspended
pub mod Sharing
pub mod Knowing
pub mod Sizing
pub mod Freeing
pub mod Unmarked
pub mod Holding
pub mod Excluding
pub mod Passing
pub mod Stacks
