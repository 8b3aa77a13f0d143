-- ===== src/MdnsResponder.antt =====
-- AirShow's own mDNS responder: src/discovery/MdnsResponder.cpp.
pub mod Labels
pub mod Packets
pub mod Compare
pub mod State
pub mod Records
pub mod Probing
pub mod Services
pub mod Interfaces
pub mod Conflicts
pub mod Answers
pub mod Quiet
pub mod Machine
