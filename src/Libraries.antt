-- ===== src/Libraries.antt =====
-- components/libraries: containers, serialization, checksums and timing helpers without hardware.
pub mod Bytes
pub mod Crc
pub mod RingBuffer
pub mod Events
pub mod StateMachine
pub mod Json
pub mod Button
pub mod Retry
