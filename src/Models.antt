-- ===== src/Models.antt =====
-- models.py: the enumerations and the records that the components share.
pub mod Status
pub mod Entry
pub mod Config
pub mod Relation
pub mod Duplicate
pub mod Session
pub mod Authority
