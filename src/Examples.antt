-- ===== src/Examples.antt =====
-- The theorems at concrete inputs, and tests.
pub mod Stores
pub mod Pools
pub mod Distributions
pub mod Frames
pub mod Sorting
pub mod Spaces
pub mod Replicas
pub mod Groups
pub mod Channels
