-- ===== src/Protocol.antt =====
-- src/protocol.rs: the 80-byte frame header, and the fields of JSON-RPC messages.
pub mod Headers
use seestar_proxy.Base.{
  ℕ, ◌+◌, ◌*◌, String, Bool, not, ◌&&◌, ◌||◌, Option, none, some, ltb, if◌then◌else◌, is_some,
  ◌>>=◌, get_or,
}
use seestar_proxy.Base.Text.{Bytes}
use seestar_proxy.Json.{Value, object, number, pos_int, insert, get, is_null, as_u64, as_str}

abbrev pub header_size : ℕ
header_size = 80

abbrev pub discovery_port : ℕ
discovery_port = 4720

pub record FrameHeader : Type 0 where
  pub size : ℕ  -- u32
  pub code : ℕ  -- u8
  pub id : ℕ  -- u8
  pub width : ℕ  -- u16
  pub height : ℕ  -- u16

-- `u16::from_be_bytes` and `u32::from_be_bytes`.
abbrev pub be16 : ℕ → ℕ → ℕ
be16 a b = a * 256 + b

abbrev pub be32 : ℕ → ℕ → ℕ → ℕ → ℕ
be32 a b c d = a * 16777216 + b * 65536 + c * 256 + d

-- The buffer is a `[u8; 80]`: no read is out of bounds, and the default is never met.
abbrev pub byte_at : Bytes → ℕ → ℕ
byte_at buf i = get_or buf i 0

unfoldable pub parse : Bytes → FrameHeader
parse buf = record {
  size = be32 (byte_at buf 6) (byte_at buf 7) (byte_at buf 8) (byte_at buf 9);
  code = byte_at buf 14;
  id = byte_at buf 15;
  width = be16 (byte_at buf 16) (byte_at buf 17);
  height = be16 (byte_at buf 18) (byte_at buf 19);
}

unfoldable pub is_image : FrameHeader → Bool
is_image h = ltb 0 h.width && ltb 0 h.height && ltb 1000 h.size

unfoldable pub json_rpc_id : Value → Option ℕ
unfolding get as_u64
json_rpc_id msg = do v ← get msg "id"; as_u64 v

unfoldable pub set_json_rpc_id_value : Value → Value → Value
set_json_rpc_id_value (object fs) id = object (insert "id" id fs)
set_json_rpc_id_value msg id = msg

unfoldable pub set_json_rpc_id : Value → ℕ → Value
set_json_rpc_id (object fs) new_id = object (insert "id" (number (pos_int new_id)) fs)
set_json_rpc_id msg new_id = msg

unfoldable pub is_event : Value → Bool
unfolding get
is_event msg = is_some (get msg "Event")

unfoldable pub is_response : Value → Bool
unfolding get
is_response msg = is_some (get msg "id") && (is_some (get msg "code") || is_some (get msg "result"))

unfoldable pub method_name : Value → Option String
unfolding get as_str
method_name msg = do v ← get msg "method"; as_str v

unfoldable pub get_id : Value → Option Value
unfolding get is_null
get_id msg = do v ← get msg "id"; if not (is_null v) then some v else none
