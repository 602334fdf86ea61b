-- ===== src/Unpacker.antt =====
-- pkg/unpacker: the pipeline that takes a contract through its states.
pub mod Construction
pub mod States
pub mod Descriptor
pub mod Library
pub mod Entry
pub mod Discover
pub mod Metadata
pub mod Providers
pub mod Final
pub mod Assembly
pub mod Study
pub mod Runs
pub mod Routes
pub mod Flow
pub mod Samples
mod Tests
