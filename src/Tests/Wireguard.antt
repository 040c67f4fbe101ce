-- ===== src/Tests/Wireguard.antt =====
-- src/wireguard: the tunnel's discovery and DNS interceptors at concrete packets.
use seestar_proxy.Base.{
  ℕ, none, some, ◌+◌, replicate, List, All, ◌≡◌, refl, [], ◌∷◌, ◌++◌, arith, drop,
}
use seestar_proxy.Base.Text.{Bytes, codes, text_eq, from_utf8_lossy, starts_with, find}
use seestar_proxy.Protocol.{discovery_port}
use seestar_proxy.Wireguard.Checksum.{internet_checksum}
use seestar_proxy.Wireguard.Checksum.Laws.{IsByte}
use seestar_proxy.Wireguard.Packets.{Look, found}
use seestar_proxy.Wireguard.Discovery.{
  handle_icmp_echo, parse_discovery_request, build_discovery_response,
}
use seestar_proxy.Wireguard.Discovery.Replies.{parse-build_discovery_response}
use seestar_proxy.Wireguard.Discovery.Pings.{handle_icmp_echo-message}
use seestar_proxy.Wireguard.Discovery.Faults.{IsDiscovery}
use seestar_proxy.Wireguard.Dns.{
  handle_dns_query, ends_with, parse_labels, parse_query_name, is_seestar_name, build_dns_response,
  answer_query,
}
use seestar_proxy.Wireguard.Dns.Names.{encode, join, parse_query_name-encode}
use seestar_proxy.Wireguard.Tunnel.{Env}

small_address : All IsByte (10 ∷ 0 ∷ 0 ∷ 1 ∷ [])
small_address = (omega arith, (omega arith, (omega arith, (omega arith, tt))))

parse-build_discovery_response_example :
    parse_discovery_request (
      build_discovery_response
        (10 ∷ 0 ∷ 0 ∷ 1 ∷ [])
        (10 ∷ 0 ∷ 0 ∷ 2 ∷ [])
        discovery_port
        (codes "scan"))
    ≡ found (10 ∷ 0 ∷ 0 ∷ 1 ∷ [], discovery_port, codes "scan")
parse-build_discovery_response_example =
    parse-build_discovery_response 10 0 0 1 10 0 0 2 (codes "scan") small_address (omega arith)

-- A packet to the discovery port whose UDP length field is 0.
abbrev pub truncated : Bytes
truncated =
    0x45 ∷ 0 ∷ 0 ∷ 28 ∷ 0 ∷ 0 ∷ 0 ∷ 0 ∷ 64 ∷ 17 ∷ 0 ∷ 0 ∷ 10 ∷ 0 ∷ 0 ∷ 2 ∷ 10 ∷ 0 ∷ 0 ∷ 1 ∷ 0x12
    ∷ 0x70 ∷ 0x12 ∷ 0x70 ∷ 0 ∷ 0 ∷ 0 ∷ 0 ∷ []

pub truncated-IsDiscovery : IsDiscovery truncated
truncated-IsDiscovery = record {
  long = omega arith;
  udp = refl;
  whole = omega arith;
  to_port = refl;
}

-- A query for `seestar.local`.
abbrev query : Bytes
query =
    0x45
    ∷ 0
    ∷ 0
    ∷ 59
    ∷ 0
    ∷ 0
    ∷ 0
    ∷ 0
    ∷ 64
    ∷ 17
    ∷ 0
    ∷ 0
    ∷ 10
    ∷ 0
    ∷ 0
    ∷ 2
    ∷ 10
    ∷ 0
    ∷ 0
    ∷ 1
    ∷ 0x30
    ∷ 0x39
    ∷ 0
    ∷ 53
    ∷ 0
    ∷ 39
    ∷ 0
    ∷ 0
    ∷ 7
    ∷ 7
    ∷ 1
    ∷ 0
    ∷ 0
    ∷ 1
    ∷ 0
    ∷ 0
    ∷ 0
    ∷ 0
    ∷ 0
    ∷ 0
    ∷ 7
    ∷ (codes "seestar" ++ (5 ∷ (codes "local" ++ (0 ∷ 0 ∷ 1 ∷ 0 ∷ 1 ∷ []))))

abbrev upstream_ip : Bytes
upstream_ip = 192 ∷ 168 ∷ 1 ∷ 50 ∷ []

abbrev found_bytes : Look Bytes → Bytes
found_bytes (found bs) = bs
found_bytes _ = []

abbrev reply : Bytes
unfolding handle_dns_query
reply = found_bytes (handle_dns_query (λ t. t) query upstream_ip)

answered : handle_dns_query (λ t. t) query upstream_ip ≡ found reply
unfolding handle_dns_query parse_query_name parse_labels is_seestar_name build_dns_response
    answer_query ends_with starts_with find text_eq from_utf8_lossy build_discovery_response
answered = refl

abbrev labels : List Bytes
labels = codes "seestar" ∷ codes "local" ∷ []

parse_query_name-encode_example :
    parse_query_name (λ t. t) (replicate 12 0 ++ (encode labels ++ (0 ∷ 1 ∷ 0 ∷ 1 ∷ [])))
    ≡ some (join [] labels, 12 + 15 + 4)
parse_query_name-encode_example =
    parse_query_name-encode (λ t. t) (replicate 12 0) labels (0 ∷ 1 ∷ 0 ∷ 1 ∷ []) refl
      (omega arith, (omega arith, tt)) (omega arith)

abbrev env : Env
env = record {
  to_lowercase = λ t. t;
  serde = record { from_str = λ t. none; to_string = λ v. none };
  upstream_ip = upstream_ip;
  device_info = codes "{}";
}

-- A ping of the telescope.
abbrev ping_front : Bytes
ping_front = 0x45 ∷ 0 ∷ 0 ∷ 28 ∷ 0 ∷ 0 ∷ 0 ∷ 0 ∷ 64 ∷ 1 ∷ 0 ∷ 0 ∷ []

abbrev ping_back : Bytes
ping_back = 10 ∷ 0 ∷ 0 ∷ 2 ∷ 192 ∷ 168 ∷ 1 ∷ 50 ∷ 8 ∷ 0 ∷ 0 ∷ 0 ∷ 0 ∷ 1 ∷ 0 ∷ 1 ∷ []

ping_back_bytes : All IsByte ping_back
ping_back_bytes = (
  omega arith,
  (
    omega arith,
    (
      omega arith,
      (
        omega arith,
        (
          omega arith,
          (
            omega arith,
            (
              omega arith,
              (
                omega arith,
                (
                  omega arith,
                  (
                    omega arith,
                    (
                      omega arith,
                      (omega arith, (omega arith, (omega arith, (omega arith, (omega arith, tt))))),
                    ),
                  ),
                ),
              ),
            ),
          ),
        ),
      ),
    ),
  ),
)

abbrev pong : Bytes
unfolding handle_icmp_echo
pong = found_bytes (handle_icmp_echo (ping_front ++ ping_back) upstream_ip)

ponged : handle_icmp_echo (ping_front ++ ping_back) upstream_ip ≡ found pong
unfolding handle_icmp_echo text_eq
ponged = refl

handle_icmp_echo-message_example :
    (kind code k1 k2 c1 c2 : ℕ) × (rest : Bytes) × (drop 20 (ping_front ++ ping_back)
      ≡ kind ∷ code ∷ k1 ∷ k2 ∷ rest)
    × (drop 20 pong ≡ 0 ∷ code ∷ c1 ∷ c2 ∷ rest)
    × (internet_checksum (drop 20 pong) ≡ 0)
handle_icmp_echo-message_example =
    handle_icmp_echo-message (ping_front ++ ping_back) upstream_ip pong
      (
        omega arith,
        (
          omega arith,
          (
            omega arith,
            (
              omega arith,
              (
                omega arith,
                (
                  omega arith,
                  (
                    omega arith,
                    (
                      omega arith,
                      (omega arith, (omega arith, (omega arith, (omega arith, ping_back_bytes)))),
                    ),
                  ),
                ),
              ),
            ),
          ),
        ),
      )
      (omega arith) (omega arith) ponged
