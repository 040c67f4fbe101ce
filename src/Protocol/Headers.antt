-- ===== src/Protocol/Headers.antt =====
-- src/protocol.rs: what `FrameHeader::parse` reads, against an encoder of the documented layout.
use seestar_proxy.Base.{ℕ, ◌/◌, ◌%◌, ◌^◌, ◌<◌, ◌≡◌, ◌∷◌, arith}
use seestar_proxy.Base.Text.{Bytes}
use seestar_proxy.Protocol.{FrameHeader, parse}

-- The layout `>HHHIHHBBHH` of the module's documentation, then 60 bytes of padding. `a`, `b`, `c`
-- are the three leading 16-bit fields and `d`, `e` the two behind the size.
pub encode :
    (lead : ℕ × ℕ × ℕ × ℕ × ℕ × ℕ) (mid : ℕ × ℕ × ℕ × ℕ) (pad : Bytes) → FrameHeader → Bytes
encode (a, b, c, d, e, f) (g, h, i, j) pad fh =
    a
    ∷ b
    ∷ c
    ∷ d
    ∷ e
    ∷ f
    ∷ (s / 16777216)
    ∷ (s / 65536 % 256)
    ∷ (s / 256 % 256)
    ∷ (s % 256)
    ∷ g
    ∷ h
    ∷ i
    ∷ j
    ∷ fh.code
    ∷ fh.id
    ∷ (fh.width / 256)
    ∷ (fh.width % 256)
    ∷ (fh.height / 256)
    ∷ (fh.height % 256)
    ∷ pad
  where
    open fh use {size as s}

-- `FrameHeader::parse` gives back every field of a header laid out as documented, whatever stands
-- in the bytes that it skips.
pub parse-encode :
    (lead : ℕ × ℕ × ℕ × ℕ × ℕ × ℕ) (mid : ℕ × ℕ × ℕ × ℕ) (pad : Bytes) (fh : FrameHeader)
    → fh.size < 2 ^ 32
    → parse (encode lead mid pad fh) ≡ fh
unfolding parse encode
parse-encode lead mid pad fh h = ground arith
