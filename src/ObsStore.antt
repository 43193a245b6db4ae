-- ===== src/ObsStore.antt =====
-- The in-memory backend of src/engines/ioda/src/ioda/Engines/ObsStore: counters, selections and the
-- storage of variables and attributes.
pub mod Counter
pub mod Selection
pub mod VarAttrStore
pub mod Translate
pub mod Named
pub mod Groups
pub mod Attribute
