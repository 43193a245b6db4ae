-- ===== src/ObsSpace.antt =====
-- class ObsSpace (src/ObsSpace.cc): the index of its records and its channels.
pub mod OrderedMap
pub mod RecIdx
pub mod Sort
pub mod Extend
pub mod Channels
