-- ===== src/Wireguard/Checksum.antt =====
-- src/wireguard/tunnel_discovery.rs: the Internet checksum of RFC 1071, over an IPv4 header without
-- its own field and over a whole message.
pub mod Laws
use seestar_proxy.Base.{ℕ, zero, suc, ◌+◌, ◌-◌, ◌*◌, ◌/◌, ◌%◌, List, [], ◌∷◌, ◌==◌, if◌then◌else◌}
use seestar_proxy.Base.Text.{Bytes}

-- The `while i < header.len()` loop of `ip_checksum`, on the bytes from `i` on. The sum is a `u32`.
unfoldable pub sum_header : ℕ → Bytes → ℕ → ℕ
sum_header i [] sum = sum
sum_header i (a ∷ []) sum = if i == 10 then sum else sum + a * 256
sum_header i (a ∷ b ∷ bs) sum = sum_header (i + 2) bs (if i == 10 then sum else sum + (a * 256 + b))

-- The loop of `internet_checksum`, and the odd byte after it.
unfoldable pub sum_words : Bytes → ℕ → ℕ
sum_words [] sum = sum
sum_words (a ∷ []) sum = sum + a * 256
sum_words (a ∷ b ∷ bs) sum = sum_words bs (sum + (a * 256 + b))

-- `while sum >> 16 != 0`, with fuel.
unfoldable pub fold_carries : ℕ → ℕ → ℕ
fold_carries zero sum = sum
fold_carries (suc fuel) sum =
    let rest = fold_carries fuel (sum % 65536 + sum / 65536) in
    if sum / 65536 == 0 then sum else rest

-- A `u32` needs two rounds at most.
abbrev pub fold_fuel : ℕ
fold_fuel = 3

-- `!(sum as u16)`.
abbrev pub complement : ℕ → ℕ
complement sum = 65535 - sum % 65536

unfoldable pub ip_checksum : Bytes → ℕ
ip_checksum header = complement (fold_carries fold_fuel (sum_header 0 header 0))

unfoldable pub internet_checksum : Bytes → ℕ
internet_checksum message = complement (fold_carries fold_fuel (sum_words message 0))
