-- ===== src/Seed.antt =====
-- scripts/seed.go: the tool that fills the system with sample events.
pub mod Run
pub mod Tables
pub mod Samples
pub mod Shapes
pub mod Shuffle
pub mod Build
pub mod Counts
pub mod Publication
