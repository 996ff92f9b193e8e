-- ===== src/Net.antt =====
-- The network stack of src/net/: the transmission of frames with its queue, the ARP cache and its
-- frames, the Internet checksum, and ICMP echoes.
pub mod Arp
pub mod Transmit
pub mod TransmitQueue
pub mod Checksum
pub mod Icmp
pub mod Ping
pub mod Tests
