-- ===== src/Packet.antt =====
-- `CPacket` of Packet.cpp.
pub mod State
pub mod Buffer
pub mod Memory
pub mod Quiet
pub mod Reads
pub mod Writes
pub mod Build
pub mod Room
pub mod Appends
pub mod Strings
pub mod Reading
pub mod Texts
pub mod RoundTrip
pub mod Safe
pub mod Typed
pub mod Tests
