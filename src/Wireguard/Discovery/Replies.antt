-- ===== src/Wireguard/Discovery/Replies.antt =====
-- src/wireguard/tunnel_discovery.rs: the packets that the tunnel answers with are well formed.
use seestar_proxy.Base.{
  ℕ, ◌+◌, ◌-◌, ◌*◌, ◌/◌, ◌%◌, ◌^◌, ◌<◌, ◌≡◌, [], ◌∷◌, arith, length, All, take_all,
}
use seestar_proxy.Base.Text.{Bytes}
use seestar_proxy.Protocol.{discovery_port}
use seestar_proxy.Wireguard.Checksum.{
  sum_header, sum_words, fold_carries, fold_fuel, complement, ip_checksum, internet_checksum,
}
use seestar_proxy.Wireguard.Checksum.Laws.{IsByte, complement-fold_carries}
use seestar_proxy.Wireguard.Packets.{found}
use seestar_proxy.Wireguard.Discovery.{
  ip_header, udp_header, build_discovery_response, parse_discovery_request,
}

-- The sum of the header's other words.
header_sum : ℕ → ℕ → ℕ → ℕ → ℕ → ℕ → ℕ → ℕ → ℕ → ℕ
header_sum n a b c d e f g h =
    0x4500
    + n % 65536
    + 0x4000
    + (64 * 256 + 17)
    + (a * 256 + b)
    + (c * 256 + d)
    + (e * 256 + f)
    + (g * 256 + h)

ip_checksum_lem :
    (n a b c d e f g h : ℕ)
    → sum_header 0
        (0x45
          ∷ 0
          ∷ (n / 256 % 256)
          ∷ (n % 256)
          ∷ 0
          ∷ 0
          ∷ 0x40
          ∷ 0
          ∷ 64
          ∷ 17
          ∷ 0
          ∷ 0
          ∷ a
          ∷ b
          ∷ c
          ∷ d
          ∷ e
          ∷ f
          ∷ g
          ∷ h
          ∷ [])
        0
      ≡ header_sum n a b c d e f g h
unfolding header_sum sum_header
ip_checksum_lem n a b c d e f g h = omega arith

sum_words_lem :
    (n s a b c d e f g h : ℕ)
    → s < 65536
    → sum_words
        (0x45
          ∷ 0
          ∷ (n / 256 % 256)
          ∷ (n % 256)
          ∷ 0
          ∷ 0
          ∷ 0x40
          ∷ 0
          ∷ 64
          ∷ 17
          ∷ (s / 256 % 256)
          ∷ (s % 256)
          ∷ a
          ∷ b
          ∷ c
          ∷ d
          ∷ e
          ∷ f
          ∷ g
          ∷ h
          ∷ [])
        0
      ≡ header_sum n a b c d e f g h + s
unfolding header_sum sum_words
sum_words_lem n s a b c d e f g h small = omega arith

header_sum-lt :
    (n a b c d e f g h : ℕ)
    → All IsByte (a ∷ b ∷ c ∷ d ∷ e ∷ f ∷ g ∷ h ∷ [])
    → header_sum n a b c d e f g h + 65536 < 2 ^ 32
unfolding header_sum
header_sum-lt n a b c d e f g h bytes = omega arith

-- The header of every response passes the receiver's test: its words, the checksum among them, sum
-- to all ones, whatever the addresses and the length.
pub ip_header-checksum :
    (a b c d e f g h n : ℕ)
    → All IsByte (a ∷ b ∷ c ∷ d ∷ e ∷ f ∷ g ∷ h ∷ [])
    → internet_checksum (ip_header (a ∷ b ∷ c ∷ d ∷ []) (e ∷ f ∷ g ∷ h ∷ []) n) ≡ 0
unfolding internet_checksum ip_header ip_checksum
ip_header-checksum a b c d e f g h n bytes =
    let sum = header_sum n a b c d e f g h in
    let check = complement (fold_carries fold_fuel sum) in
    rw (ip_checksum_lem n a b c d e f g h) (
      rw (sum_words_lem n check a b c d e f g h (omega arith))
        (complement-fold_carries sum (header_sum-lt n a b c d e f g h bytes)))

-- A response addressed to the discovery port is read back by the tunnel's own parser as what it was
-- built from, as long as its length fits the 16-bit length fields.
pub parse-build_discovery_response :
    (a b c d e f g h : ℕ) (payload : Bytes)
    → All IsByte (a ∷ b ∷ c ∷ d ∷ [])
    → 28 + length payload < 65536
    → parse_discovery_request
        (build_discovery_response (a ∷ b ∷ c ∷ d ∷ []) (e ∷ f ∷ g ∷ h ∷ []) discovery_port payload)
      ≡ found (a ∷ b ∷ c ∷ d ∷ [], discovery_port, payload)
unfolding parse_discovery_request build_discovery_response ip_header udp_header
parse-build_discovery_response a b c d e f g h payload bytes fits =
    let n = 8 + length payload in
    let udp_len = n / 256 % 256 * 256 + n % 256 in ground (arith, take_all (udp_len - 8) payload)
