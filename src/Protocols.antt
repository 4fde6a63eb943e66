-- ===== src/Protocols.antt =====
-- components/protocols: frames, topics and requests over the ports.
pub mod Frame
pub mod Mqtt
pub mod Modbus
