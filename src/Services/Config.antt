-- ===== src/Services/Config.antt =====
-- components/services/configuration: a key-value store of 24 records in memory, committed to two
-- slots of a storage device by turns.
pub mod State
pub mod Contents
pub mod Lookup
pub mod Blob
pub mod Update
pub mod Typed
pub mod Slot
pub mod Image
pub mod Sealed
pub mod Recover
pub mod Reload
pub mod Device
pub mod Choose
pub mod Restart
mod Tests
