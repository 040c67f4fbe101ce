-- ===== src/Wireguard/Dns/Safety.antt =====
-- src/wireguard/dns.rs: the interceptor panics on no packet, and its reply's port.
use seestar_proxy.Base.{
  ℕ, zero, suc, ◌+◌, ◌-◌, ◌≤◌, ◌<◌, ◌≡◌, ◌≢◌, refl, some, [], arith, length, take, drop,
  Option-cases, inl, inr, ◌⊎◌,
}
use seestar_proxy.Base.Text.{Bytes, Text, from_utf8_lossy}
use seestar_proxy.Protocol.{byte_at, discovery_port}
use seestar_proxy.Wireguard.Packets.{Look, ignored, found, panicked, header_length, port, address}
use seestar_proxy.Wireguard.Discovery.{build_discovery_response, ip_header, udp_header}
use seestar_proxy.Wireguard.Dns.{
  dns_header_len, push_label, parse_labels, parse_query_name, build_dns_response, answer_query,
  handle_dns_query,
}

-- A parsed name ends inside the query, behind where the parser started.
parse_labels_bounds :
    (fuel : ℕ) (bytes : Bytes) (pos : ℕ) (acc name : Text) (stop : ℕ)
    → parse_labels fuel bytes pos acc ≡ some (name, stop)
    → (pos < stop) × (stop ≤ length bytes)
unfolding parse_labels
parse_labels_bounds zero bytes pos acc name stop e = cc
parse_labels_bounds (suc fuel) bytes pos acc name stop e =
    let len = byte_at bytes pos in
    ground (
      arith,
      parse_labels_bounds fuel bytes (pos + 1 + len)
          (push_label acc (from_utf8_lossy (take len (drop (pos + 1) bytes)))) name stop,
    )

Look-cases {ℓ} :
    {A : Type ℓ} (l : Look A) → ((l ≡ ignored) ⊎ (l ≡ panicked)) ⊎ ((a : A) × (l ≡ found a))
Look-cases ignored = inl (inl refl)
Look-cases panicked = inl (inr refl)
Look-cases (found a) = inr (a, refl)

module _ (to_lowercase : Text → Text) where
  parse_query_name_bounds :
      (bytes : Bytes) (name : Text) (stop : ℕ)
      → parse_query_name to_lowercase bytes ≡ some (name, stop)
      → (16 < stop) × (stop ≤ length bytes)
  unfolding parse_query_name
  parse_query_name_bounds bytes name stop e =
      elim (Option-cases (parse_labels (suc (length bytes)) bytes dns_header_len [])) [
        | inl none_found ↦ absurd (ground arith)
        | inr ((n, pos), found_at) ↦
            ground (
              arith,
              parse_labels_bounds (suc (length bytes)) bytes dns_header_len [] n pos found_at,
            )
      ]

  build_dns_response_safe : (query ip : Bytes) → build_dns_response to_lowercase query ip ≢ panicked
  unfolding build_dns_response
  build_dns_response_safe query ip = elim (Option-cases (parse_query_name to_lowercase query)) [
    | inl e ↦ rw (e, build_dns_response) (ground arith)
    | inr ((name, stop), e) ↦
        rw (e, build_dns_response) (ground (arith, parse_query_name_bounds query name stop e))
  ]

  answer_query_safe :
      (packet udp upstream_ip payload : Bytes) (name : Text)
      → answer_query to_lowercase packet udp upstream_ip payload name ≢ panicked
  unfolding answer_query
  answer_query_safe packet udp upstream_ip payload name =
      ground (arith, build_dns_response_safe payload upstream_ip)

  -- No tunnel packet, however malformed, makes the interceptor index or slice out of bounds.
  pub handle_dns_query_safe :
      (packet upstream_ip : Bytes) → handle_dns_query to_lowercase packet upstream_ip ≢ panicked
  unfolding handle_dns_query
  handle_dns_query_safe packet upstream_ip =
      let udp = drop (header_length packet) packet in
      let payload = take (port 4 udp - 8) (drop 8 udp) in
      elim (Option-cases (parse_query_name to_lowercase payload)) [
        | inl e ↦ ground arith
        | inr ((name, stop), e) ↦
            ground (arith, answer_query_safe packet udp upstream_ip payload name)
      ]

  build_discovery_response-port :
      (packet packet' payload : Bytes) (m n dst_port : ℕ)
      → port 0 (
          drop 20
            (build_discovery_response (address m packet) (address n packet') dst_port payload))
        ≡ discovery_port
  unfolding build_discovery_response ip_header udp_header
  build_discovery_response-port packet packet' payload m n dst_port = refl

  answer_query-port :
      (packet udp upstream_ip payload : Bytes) (name : Text) (reply : Bytes)
      → answer_query to_lowercase packet udp upstream_ip payload name ≡ found reply
      → port 0 (drop 20 reply) ≡ discovery_port
  unfolding answer_query
  answer_query-port packet udp upstream_ip payload name reply e =
      elim (Look-cases (build_dns_response to_lowercase payload upstream_ip)) [
        | inl other ↦ absurd (ground (arith, other))
        | inr (r, f) ↦
            ground (arith, build_discovery_response-port packet packet r 16 12 (port 0 udp))
      ]

  -- Every reply of the interceptor leaves from UDP port 4720, though the query that it answers went
  -- to port 53.
  pub handle_dns_query-port :
      (packet upstream_ip reply : Bytes)
      → handle_dns_query to_lowercase packet upstream_ip ≡ found reply
      → (port 0 (drop 20 reply) ≡ discovery_port)
        × (port 2 (drop (header_length packet) packet) ≡ 53)
  unfolding handle_dns_query
  handle_dns_query-port packet upstream_ip reply e =
      let udp = drop (header_length packet) packet in
      let payload = take (port 4 udp - 8) (drop 8 udp) in
      elim (Option-cases (parse_query_name to_lowercase payload)) [
        | inl none_found ↦ absurd (ground arith)
        | inr ((name, stop), f) ↦
            ground (arith, answer_query-port packet udp upstream_ip payload name reply)
      ]
