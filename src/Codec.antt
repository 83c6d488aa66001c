-- ===== src/Codec.antt =====
-- The messages on the wire, one module for each.
pub mod SensorInfo
pub mod SensorReading
pub mod ControlResponse
pub mod DiscoveryRequest
pub mod ClientRequest
pub mod ControlCommand
pub mod ClientResponse
pub mod Safety
