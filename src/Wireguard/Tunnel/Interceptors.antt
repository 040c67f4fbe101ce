-- ===== src/Wireguard/Tunnel/Interceptors.antt =====
-- src/wireguard: the interceptors answer disjoint packets, and only one kind of packet makes them
-- panic.
use seestar_proxy.Base.{◌≤◌, ◌≡◌, ◌≢◌, refl, sym, inl, inr, ◌⊎◌, Bool-cases, arith, ◌==◌, drop}
use seestar_proxy.Base.Text.{Bytes, Text}
use seestar_proxy.Json.{Serde}
use seestar_proxy.Protocol.{byte_at, discovery_port}
use seestar_proxy.Wireguard.Packets.{Look, ignored, found, panicked, header_length, port}
use seestar_proxy.Wireguard.Discovery.{parse_discovery_request, handle_discovery, handle_icmp_echo}
use seestar_proxy.Wireguard.Dns.{handle_dns_query}
use seestar_proxy.Wireguard.Dns.Safety.{handle_dns_query_safe}
use seestar_proxy.Wireguard.Tunnel.{Env, intercept, or_else}

-- The protocol and the port of a packet that an interceptor looks at further.
pub handle_dns_query_to :
    (to_lowercase : Text → Text) (packet ip : Bytes)
    → (handle_dns_query to_lowercase packet ip ≡ ignored)
      ⊎ ((byte_at packet 9 ≡ 17) × (port 2 (drop (header_length packet) packet) ≡ 53))
unfolding handle_dns_query
handle_dns_query_to to_lowercase packet ip = elim (Bool-cases (byte_at packet 9 == 17)) [
  | inr e ↦ inl (ground arith)
  | inl e ↦ elim (Bool-cases (port 2 (drop (header_length packet) packet) == 53)) [
    | inr f ↦ inl (ground arith)
    | inl f ↦ inr (ground arith, ground arith)
  ]
]

handle_discovery_to :
    (serde : Serde) (packet ip info : Bytes)
    → (handle_discovery serde packet ip info ≡ ignored)
      ⊎ ((byte_at packet 9 ≡ 17) × (port 2 (drop (header_length packet) packet) ≡ discovery_port))
unfolding handle_discovery parse_discovery_request
handle_discovery_to serde packet ip info = elim (Bool-cases (byte_at packet 9 == 17)) [
  | inr e ↦ inl (ground arith)
  | inl e ↦ elim (Bool-cases (port 2 (drop (header_length packet) packet) == discovery_port)) [
    | inr f ↦ inl (ground arith)
    | inl f ↦ inr (ground arith, ground arith)
  ]
]

handle_icmp_echo_to :
    (packet ip : Bytes) → (handle_icmp_echo packet ip ≡ ignored) ⊎ (byte_at packet 9 ≡ 1)
unfolding handle_icmp_echo
handle_icmp_echo_to packet ip = elim (Bool-cases (byte_at packet 9 == 1)) [
  | inr e ↦ inl (ground arith)
  | inl e ↦ inr (ground arith)
]

-- The interceptors take disjoint packets: asking them in the opposite order gives the same reply.
pub intercept_order :
    (env : Env) (packet : Bytes)
    → intercept env packet
      ≡ or_else (handle_icmp_echo packet env.upstream_ip) (
          or_else
            (handle_discovery env.serde packet env.upstream_ip env.device_info)
            (handle_dns_query env.to_lowercase packet env.upstream_ip))
unfolding intercept
intercept_order env packet =
    let dns = handle_dns_query env.to_lowercase packet env.upstream_ip in
    let discovery = handle_discovery env.serde packet env.upstream_ip env.device_info in
    let ping = handle_icmp_echo packet env.upstream_ip in
    elim (handle_dns_query_to env.to_lowercase packet env.upstream_ip) [
      | inl no_dns ↦ elim (handle_discovery_to env.serde packet env.upstream_ip env.device_info) [
        | inl no_discovery ↦ swap_last dns discovery ping no_dns no_discovery
        | inr d ↦ elim (handle_icmp_echo_to packet env.upstream_ip) [
          | inl no_ping ↦ swap_middle dns discovery ping no_dns no_ping
          | inr p ↦ absurd (omega (arith, d.0))
        ]
      ]
      | inr q ↦ elim (handle_discovery_to env.serde packet env.upstream_ip env.device_info) [
        | inr d ↦ absurd (omega (arith, q.1, d.1))
        | inl no_discovery ↦ elim (handle_icmp_echo_to packet env.upstream_ip) [
          | inl no_ping ↦ swap_first dns discovery ping no_discovery no_ping
          | inr p ↦ absurd (omega (arith, q.0))
        ]
      ]
    ]
  where
    or_else_ignored : (a : Look Bytes) → or_else a ignored ≡ a
    or_else_ignored ignored = refl
    or_else_ignored (found b) = refl
    or_else_ignored panicked = refl

    swap_last :
        (a b c : Look Bytes)
        → a ≡ ignored
        → b ≡ ignored
        → or_else a (or_else b c) ≡ or_else c (or_else b a)
    swap_last a b c e f = rw (e, f) (sym (or_else_ignored c))

    swap_middle :
        (a b c : Look Bytes)
        → a ≡ ignored
        → c ≡ ignored
        → or_else a (or_else b c) ≡ or_else c (or_else b a)
    swap_middle a b c e f = rw (e, f) refl

    swap_first :
        (a b c : Look Bytes)
        → b ≡ ignored
        → c ≡ ignored
        → or_else a (or_else b c) ≡ or_else c (or_else b a)
    swap_first a b c e f = rw (e, f) (or_else_ignored a)

parse_discovery_request_safe :
    (packet : Bytes)
    → 8 ≤ port 4 (drop (header_length packet) packet)
    → parse_discovery_request packet ≢ panicked
unfolding parse_discovery_request
parse_discovery_request_safe packet h = ground arith

handle_icmp_echo_safe : (packet ip : Bytes) → handle_icmp_echo packet ip ≢ panicked
unfolding handle_icmp_echo
handle_icmp_echo_safe packet ip = ground arith

handle_discovery_safe :
    (serde : Serde) (packet ip info : Bytes)
    → 8 ≤ port 4 (drop (header_length packet) packet)
    → handle_discovery serde packet ip info ≢ panicked
unfolding handle_discovery
handle_discovery_safe serde packet ip info h = ground (arith, parse_discovery_request_safe packet h)

or_else_safe : (a b : Look Bytes) → a ≢ panicked → b ≢ panicked → or_else a b ≢ panicked
or_else_safe ignored b p q = q
or_else_safe (found x) b p q = p
or_else_safe panicked b p q = p

-- The packet loop survives every packet but those to the discovery port whose UDP length is below
-- the 8 bytes of its own header.
pub intercept_safe :
    (env : Env) (packet : Bytes)
    → ((port 2 (drop (header_length packet) packet) ≢ discovery_port)
        ⊎ (8 ≤ port 4 (drop (header_length packet) packet)))
    → intercept env packet ≢ panicked
unfolding intercept
intercept_safe env packet h =
    or_else_safe (handle_dns_query env.to_lowercase packet env.upstream_ip)
      (or_else (handle_discovery env.serde packet env.upstream_ip env.device_info)
        (handle_icmp_echo packet env.upstream_ip))
      (handle_dns_query_safe env.to_lowercase packet env.upstream_ip)
      (or_else_safe (handle_discovery env.serde packet env.upstream_ip env.device_info)
        (handle_icmp_echo packet env.upstream_ip)
        (elim h [
          | inr long ↦ handle_discovery_safe env.serde packet env.upstream_ip env.device_info long
          | inl other ↦
              elim (handle_discovery_to env.serde packet env.upstream_ip env.device_info) [
                | inl no_discovery ↦ rw no_discovery (λ e. cc)
                | inr d ↦ absurd (other d.1)
              ]
        ])
        (handle_icmp_echo_safe packet env.upstream_ip))
