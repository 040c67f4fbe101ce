-- ===== src/Wireguard/Dns.antt =====
-- src/wireguard/dns.rs: the DNS interceptor of the tunnel. `str::to_lowercase`, which rests on the
-- Unicode tables, is a parameter.
pub mod Names
pub mod Safety
use seestar_proxy.Base.{
  ℕ, zero, suc, ◌+◌, ◌*◌, Bool, true, false, not, ◌&&◌, ◌||◌, Option, none, some, List, [], ◌∷◌,
  ◌++◌, ltb, leb, ◌==◌, if◌then◌else◌, length, take, drop, ◌-◌,
}
use mathlib.Core.List.{reverse}
use seestar_proxy.Base.Text.{Bytes, Text, codes, from_utf8_lossy, text_eq, starts_with, find}
use seestar_proxy.Protocol.{byte_at}
use seestar_proxy.Wireguard.Packets.{
  Look, ignored, found, panicked, ◌>>=◌, slice, header_length, address, port,
}
use seestar_proxy.Wireguard.Discovery.{build_discovery_response, or_ignore}

abbrev pub dns_header_len : ℕ
dns_header_len = 12

-- A dot goes between two labels.
abbrev pub push_label : Text → Text → Text
push_label [] label = label
push_label (c ∷ name) label = (c ∷ name) ++ (b'.' ∷ label)

-- The label loop of `parse_query_name`: the name and the position behind the final zero.
unfoldable pub parse_labels : ℕ → Bytes → ℕ → Text → Option (Text × ℕ)
parse_labels zero bytes pos name = none
parse_labels (suc fuel) bytes pos name =
    let label_len = byte_at bytes pos in
    let label = from_utf8_lossy (take label_len (drop (pos + 1) bytes)) in
    let rest = parse_labels fuel bytes (pos + 1 + label_len) (push_label name label) in
    if leb (length bytes) pos
    then none
    else if label_len == 0
    then some (name, pos + 1)
    else if ltb (length bytes) (pos + 1 + label_len)
    then none
    else rest

-- `str::ends_with` and `str::contains`.
unfoldable pub ends_with : Text → Text → Bool
unfolding starts_with
ends_with s suffix = starts_with (reverse suffix) (reverse s)

abbrev is_found : Option ℕ → Bool
is_found none = false
is_found (some i) = true

-- Flags and counts of the response, and the answer record up to the address.
abbrev pub response_flags : Bytes
response_flags = 0x81 ∷ 0x80 ∷ 0 ∷ 1 ∷ 0 ∷ 1 ∷ 0 ∷ 0 ∷ 0 ∷ 0 ∷ []

abbrev pub answer_front : Bytes
answer_front = 0xc0 ∷ 0x0c ∷ 0 ∷ 1 ∷ 0 ∷ 1 ∷ 0 ∷ 0 ∷ 0 ∷ 0x3c ∷ 0 ∷ 4 ∷ []

module _ (to_lowercase : Text → Text) where
  -- Each turn of the loop goes at least one byte on.
  unfoldable pub parse_query_name : Bytes → Option (Text × ℕ)
  parse_query_name bytes =
      if ltb (length bytes) (dns_header_len + 1)
      then none
      else elim (parse_labels (suc (length bytes)) bytes dns_header_len []) [
        | none ↦ none
        | some (name, pos) ↦
            if ltb (length bytes) (pos + 4) then none else some (to_lowercase name, pos + 4)
      ]

  unfoldable pub is_seestar_name : Text → Bool
  unfolding ends_with starts_with find text_eq
  is_seestar_name name =
      let n = to_lowercase name in
      if ends_with n (codes ".seestar.com") || text_eq n (codes "seestar.com")
      then false
      else text_eq n (codes "seestar.local")
        || starts_with (codes "s30_") n
        || starts_with (codes "s50_") n
        || starts_with (codes "s30-") n
        || starts_with (codes "s50-") n
        || (is_found (find (codes "seestar") n) && ends_with n (codes ".local"))

  unfoldable pub build_dns_response : Bytes → Bytes → Look Bytes
  build_dns_response query ip = do
    (name, question_end) ← or_ignore (parse_query_name query)
    if ltb (length query) dns_header_len then ignored else (do
      query_id ← slice 0 2 query
      question ← slice dns_header_len question_end query
      found (query_id ++ (response_flags ++ (question ++ (answer_front ++ ip)))))

  unfoldable pub answer_query : Bytes → Bytes → Bytes → Bytes → Bytes → Look Bytes
  answer_query packet udp upstream_ip dns_payload name =
      if not (is_seestar_name name) then ignored else (do
        dns_response ← build_dns_response dns_payload upstream_ip
        found (
            build_discovery_response (address 16 packet) (address 12 packet) (port 0 udp)
              dns_response))

  unfoldable pub handle_dns_query : Bytes → Bytes → Look Bytes
  handle_dns_query packet upstream_ip =
      if ltb (length packet) 28
      then ignored
      else if not (byte_at packet 9 == 17)
      then ignored
      else let ihl = header_length packet in
        let udp = drop ihl packet in
        let udp_len = port 4 udp in
        if ltb (length packet) (ihl + 8)
        then ignored
        else if not (port 2 udp == 53)
        then ignored
        else if ltb (length udp) udp_len || ltb udp_len 8
        then ignored
        else (do
          dns_payload ← slice 8 udp_len udp
          (name, _) ← or_ignore (parse_query_name dns_payload)
          answer_query packet udp upstream_ip dns_payload name)
