-- ===== src/Wireguard/Discovery.antt =====
-- src/wireguard/tunnel_discovery.rs: discovery requests and pings inside the tunnel.
pub mod Replies
pub mod Pings
pub mod Faults
use seestar_proxy.Base.{
  ℕ, ◌+◌, ◌%◌, String, Bool, not, Option, none, some, [], ◌∷◌, ◌++◌, ltb, ◌==◌, if◌then◌else◌,
  length, take, drop, str_eq,
}
use seestar_proxy.Base.Text.{Bytes, Text, from_utf8, text_eq}
use seestar_proxy.Json.{Value, Serde, get, as_str}
use seestar_proxy.Protocol.{byte_at, discovery_port}
use seestar_proxy.Wireguard.Checksum.{ip_checksum, internet_checksum}
use seestar_proxy.Wireguard.Packets.{
  Look, ignored, found, panicked, ◌>>=◌, slice, be_bytes, write, header_length, address, port,
}

-- The client's address and port, and the payload.
unfoldable pub parse_discovery_request : Bytes → Look (Bytes × ℕ × Bytes)
parse_discovery_request packet =
    if ltb (length packet) 28
    then ignored
    else if not (byte_at packet 9 == 17)
    then ignored
    else let ihl = header_length packet in
      let udp = drop ihl packet in
      let udp_len = port 4 udp in
      if ltb (length packet) (ihl + 8)
      then ignored
      else if not (port 2 udp == discovery_port)
      then ignored
      else if ltb (length udp) udp_len
      then ignored
      else (do payload ← slice 8 udp_len udp; found (address 12 packet, port 0 udp, payload))

-- The IPv4 header but for its checksum, which stands between the two parts.
abbrev header_front : ℕ → Bytes
header_front total_len = 0x45 ∷ 0 ∷ be_bytes total_len ++ (0 ∷ 0 ∷ 0x40 ∷ 0 ∷ 64 ∷ 17 ∷ [])

unfoldable pub ip_header : Bytes → Bytes → ℕ → Bytes
ip_header src dst total_len =
    let checksum = ip_checksum (header_front total_len ++ (0 ∷ 0 ∷ src ++ dst)) in
    header_front total_len ++ (be_bytes checksum ++ (src ++ dst))

unfoldable pub udp_header : ℕ → ℕ → Bytes
udp_header dst_port udp_len =
    be_bytes discovery_port ++ (be_bytes dst_port ++ (be_bytes udp_len ++ (0 ∷ 0 ∷ [])))

-- Both lengths are cut to 16 bits.
unfoldable pub build_discovery_response : Bytes → Bytes → ℕ → Bytes → Bytes
build_discovery_response src_ip dst_ip dst_port payload =
    ip_header src_ip dst_ip (20 + 8 + length payload)
    ++ (udp_header dst_port (8 + length payload) ++ payload)

abbrev pub or_ignore {ℓ} : {A : Type ℓ} → Option A → Look A
or_ignore none = ignored
or_ignore (some a) = found a

-- The JSON of the device is its bytes.
unfoldable pub handle_discovery : Serde → Bytes → Bytes → Bytes → Look Bytes
handle_discovery serde packet upstream_ip device_info_json = do
  (client_ip, client_port, payload) ← parse_discovery_request packet
  request ← or_ignore (from_utf8 payload)
  json ← or_ignore (serde.from_str request)
  value ← or_ignore (get json "method")
  method ← or_ignore (as_str value)
  if not (str_eq method "scan_iscope")
      then ignored
      else found (build_discovery_response upstream_ip client_ip client_port device_info_json)

-- The reply: addresses swapped, type 0, both checksums anew.
unfoldable pub echo_reply : Bytes → ℕ → Bytes → Bytes → Bytes
echo_reply packet ihl src_ip dst_ip =
    let swapped = write 10 (0 ∷ 0 ∷ []) (write 16 src_ip (write 12 dst_ip packet)) in
    let summed = write 10 (be_bytes (ip_checksum (take ihl swapped))) swapped in
    let typed = write (ihl + 2) (0 ∷ 0 ∷ []) (write ihl (0 ∷ []) summed) in
    write (ihl + 2) (be_bytes (internet_checksum (drop ihl typed))) typed

unfoldable pub handle_icmp_echo : Bytes → Bytes → Look Bytes
handle_icmp_echo packet upstream_ip =
    if ltb (length packet) 28
    then ignored
    else if not (byte_at packet 9 == 1)
    then ignored
    else let dst_ip = address 16 packet in
      let ihl = header_length packet in
      if not (text_eq dst_ip upstream_ip)
      then ignored
      else if ltb (length packet) (ihl + 8)
      then ignored
      else if not (byte_at packet ihl == 8)
      then ignored
      else found (echo_reply packet ihl (address 12 packet) dst_ip)
