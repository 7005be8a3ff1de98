-- ===== src/Tests.antt =====
-- Concrete instances of the crates, a concrete database, and the theorems at work on them.
pub mod Words
pub mod Bincode
pub mod Json
pub mod Values
pub mod Database
pub mod Runs
pub mod Storage
pub mod Formats
pub mod Progress
pub mod Clients
pub mod Handles
pub mod Prefixes
pub mod Sound
pub mod Copies
pub mod Windows
pub mod Texts
pub mod Lives
pub mod Faults
pub mod FormatSuite
pub mod EngineSuite
pub mod HandleSuite
pub mod CodecSuite
pub mod DurabilitySuite
pub mod LongSuite
