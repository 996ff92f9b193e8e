-- ===== src/Net/Arp.antt =====
-- ARP: src/net/arp.cpp, and the frames that src/net/net_packet.cpp builds for it.
pub mod Cache
pub mod Lookup
pub mod Frame
pub mod Parsing
pub mod Observe
pub mod Handshake
