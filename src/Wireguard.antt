-- ===== src/Wireguard.antt =====
-- src/wireguard: the packets that the tunnel endpoint reads and answers by itself.
pub mod Checksum
pub mod Packets
pub mod Discovery
pub mod Dns
pub mod Tunnel
pub mod Netstack
pub mod DeviceInfo
pub mod Keys
