-- ===== src/Wireguard/Packets.antt =====
-- src/wireguard: IPv4 packets as bytes. A function that looks at a packet ignores it, finds what it
-- wants, or panics on an index or a range.
use seestar_proxy.Base.{
  ℕ, ◌+◌, ◌-◌, ◌*◌, ◌/◌, ◌%◌, ◌&&◌, [], ◌∷◌, ◌++◌, leb, if◌then◌else◌, length, take, drop,
}
use seestar_proxy.Base.Text.{Bytes}
use seestar_proxy.Protocol.{be16, byte_at}

pub data Look {ℓ} (A : Type ℓ) : Type ℓ where
  ignored : Look A
  found : A → Look A
  panicked : Look A

infixl 5 ◌>>=◌
abbrev pub ◌>>=◌ {ℓ κ} : {A : Type ℓ} {B : Type κ} → Look A → (A → Look B) → Look B
ignored >>= f = ignored
found a >>= f = f a
panicked >>= f = panicked

-- `&xs[s..e]`.
abbrev pub slice : ℕ → ℕ → Bytes → Look Bytes
slice s e xs = if leb s e && leb e (length xs) then found (take (e - s) (drop s xs)) else panicked

-- `u16::to_be_bytes` of a value cut to 16 bits.
abbrev pub be_bytes : ℕ → Bytes
be_bytes n = (n / 256 % 256) ∷ n % 256 ∷ []

-- `xs[n..n + w.len()].copy_from_slice(w)`, in range.
abbrev pub write : ℕ → Bytes → Bytes → Bytes
write n w xs = take n xs ++ (w ++ drop (n + length w) xs)

-- The length of the IPv4 header: `(packet[0] & 0x0f) as usize * 4`.
abbrev pub header_length : Bytes → ℕ
header_length packet = byte_at packet 0 % 16 * 4

-- Four bytes: an address of the header.
abbrev pub address : ℕ → Bytes → Bytes
address n packet =
    byte_at packet n ∷ byte_at packet (n + 1) ∷ byte_at packet (n + 2) ∷ byte_at packet (n + 3) ∷ []

abbrev pub port : ℕ → Bytes → ℕ
port n udp = be16 (byte_at udp n) (byte_at udp (n + 1))
