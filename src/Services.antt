-- ===== src/Services.antt =====
-- components/services: the policies that products compose, over the ports of the other layers.
pub mod Limits
pub mod Text
pub mod Config
pub mod Ota
pub mod Provisioning
pub mod Security
pub mod Health
pub mod Diagnostics
pub mod Messages
pub mod Offline
pub mod Network
pub mod TimeSync
pub mod Dispatcher
pub mod BinarySwitch
pub mod Indication
pub mod Telemetry
