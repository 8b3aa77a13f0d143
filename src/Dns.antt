-- ===== src/Dns.antt =====
-- The DNS wire format of the mDNS responder: src/discovery/DnsMessage.cpp.
pub mod Wire
pub mod Name
pub mod Message
pub mod Reader
pub mod Writer
pub mod RoundTrip
