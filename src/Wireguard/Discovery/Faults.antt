-- ===== src/Wireguard/Discovery/Faults.antt =====
-- src/wireguard/tunnel_discovery.rs: the UDP length that `parse_discovery_request` trusts.
use seestar_proxy.Base.{
  ◌+◌, ◌≤◌, ◌≡◌, arith, ltb, length, drop, take, ◌-◌, if◌then◌else◌, length-drop,
}
use seestar_proxy.Base.Text.{Bytes}
use seestar_proxy.Protocol.{byte_at, discovery_port}
use seestar_proxy.Wireguard.Packets.{ignored, found, panicked, header_length, port, address}
use seestar_proxy.Wireguard.Discovery.{parse_discovery_request}

-- A tunnel client's UDP packet to the discovery port that is long enough for its headers.
pub record IsDiscovery (packet : Bytes) : Type 0 where
  pub long : 28 ≤ length packet
  pub udp : byte_at packet 9 ≡ 17
  pub whole : header_length packet + 8 ≤ length packet
  pub to_port : port 2 (drop (header_length packet) packet) ≡ discovery_port

-- What a discovery packet is read as turns on its UDP length field alone: below the UDP header's own
-- 8 bytes the function panics, past the packet's end it ignores the packet, and else it returns the
-- sender and the bytes behind the UDP header.
pub parse_discovery_request_lem :
    (packet : Bytes)
    → IsDiscovery packet
    → let udp = drop (header_length packet) packet in
      parse_discovery_request packet ≡ (
        if ltb (length packet - header_length packet) (port 4 udp)
        then ignored
        else if ltb (port 4 udp) 8
        then panicked
        else found (address 12 packet, port 0 udp, take (port 4 udp - 8) (drop 8 udp)))
unfolding parse_discovery_request
parse_discovery_request_lem packet d = ground (arith, length-drop (header_length packet) packet)
