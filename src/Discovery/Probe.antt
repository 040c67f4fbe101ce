-- ===== src/Discovery/Probe.antt =====
-- src/discovery.rs: the probe of the telescope, from the datagrams and the lines that answer it, and
-- what the bridge starts with. A list ends where the five seconds are over.
pub mod Answers
use seestar_proxy.Base.{
  ℕ, String, Bool, true, false, not, ◌&&◌, ◌||◌, Option, none, some, List, [], ◌∷◌, if◌then◌else◌,
  is_some, length, unwrap_or, ◌>>=◌, ltb, leb, ◌==◌,
}
use mathlib.Core.List.{reverse}
use seestar_proxy.Base.Text.{Bytes, Text, codes, from_utf8_lossy, text_eq, trim, find}
use seestar_proxy.Json.{
  Value, boolean, number, pos_int, string, object, Fields, field, end, get, as_str,
}
use seestar_proxy.Discovery.{Address, build_configured_response}

-- serde_json's readers.
pub record Parsers : Type 0 where
  pub from_slice : Bytes → Option Value
  pub from_str : Text → Option Value

abbrev is_ascii_whitespace : ℕ → Bool
is_ascii_whitespace b = b == 32 || b == 9 || b == 10 || b == 12 || b == 13

abbrev drop_ascii : Bytes → Bytes
drop_ascii [] = []
drop_ascii (b ∷ bs) = let rest = drop_ascii bs in if is_ascii_whitespace b then rest else b ∷ bs

unfoldable pub trim_ascii_end : Bytes → Bytes
trim_ascii_end bs = reverse (drop_ascii (reverse bs))

-- An answer that cannot be parsed, of a telescope that has rejected the probe.
unfoldable pub is_firmware_error : Bytes → Bool
unfolding from_utf8_lossy find
is_firmware_error slice =
    let text = from_utf8_lossy slice in
    is_some (find (codes "\"code\"") text) || is_some (find (codes "\"error\"") text)

-- What a datagram does to the loop: it goes on, it has its answer, or it gives up.
pub data Verdict : Type 0 where
  skip give_up : Verdict
  answered : Value → Verdict

unfoldable pub judge : Parsers → Bytes → Address × Bytes → Verdict
unfolding is_firmware_error trim_ascii_end text_eq
judge ps upstream_ip (src, buf) =
    let slice = trim_ascii_end buf in
    if text_eq src.ip upstream_ip
    then elim (ps.from_slice slice) [
      | some v ↦ answered v
      | none ↦ if is_firmware_error slice then give_up else skip
    ]
    else skip

-- The loop over `recv_from`.
unfoldable pub await_answer : Parsers → Bytes → List (Address × Bytes) → Option Value
unfolding judge
await_answer ps upstream_ip [] = none
await_answer ps upstream_ip (d ∷ ds) =
    let later = await_answer ps upstream_ip ds in
    elim (judge ps upstream_ip d) [ skip ↦ later | give_up ↦ none | answered v ↦ some v ]

unfoldable pub is_object : Value → Bool
is_object (object fs) = true
is_object _ = false

-- A line that `read_line` brings, as a device state: a result that is an object.
unfoldable pub device_state : Parsers → Text → Option Value
unfolding trim get is_object
device_state ps line = do
  v ← ps.from_str (trim line)
  result ← get v "result"
  if is_object result then some result else none

-- The loop over `read_line`; the list also ends at a failed read.
unfoldable pub await_state : Parsers → List Text → Option Value
unfolding device_state
await_state ps [] = none
await_state ps (l ∷ ls) =
    let later = await_state ps ls in elim (device_state ps l) [ some r ↦ some r | none ↦ later ]

-- `result.pointer("/a/b").and_then(as_str).unwrap_or(d)`.
unfoldable pub text_at : Value → String → String → String → String
unfolding get as_str
text_at result a b d = unwrap_or (do x ← get result a; y ← get x b; as_str y) d

abbrev pub envelope : Fields → Value
envelope result = object (
    field "jsonrpc" (string "2.0") (
      field "Timestamp" (string "0") (
        field "method" (string "scan_iscope") (
          field "result" (object result)
            (field "code" (number (pos_int 0)) (field "id" (number (pos_int 201)) end))))))

-- The discovery response that is built from a device state.
unfoldable pub from_state : Value → Value
unfolding text_at
from_state result = envelope (
    field "sn" (string (text_at result "device" "sn" "unknown")) (
      field "product_model" (string (text_at result "device" "product_model" "Seestar")) (
        field "ssid" (string (text_at result "ap" "ssid" ""))
          (field "is_verified" (boolean true) (field "tcp_client_num" (number (pos_int 0)) end)))))

-- The lines, if the connection and the request go well.
unfoldable pub fetch_device_info_tcp : Parsers → Option (List Text) → Option Value
unfolding await_state from_state
fetch_device_info_tcp ps lines = do ls ← lines; result ← await_state ps ls; some (from_state result)

unfoldable pub minimal : Value
minimal = envelope (
    field "product_model" (string "Seestar (via proxy)") (
      field "sn" (string "proxy") (
        field "ssid" (string "Seestar_proxy")
          (field "is_verified" (boolean true) (field "tcp_client_num" (number (pos_int 0)) end)))))

unfoldable pub probe_upstream :
    Parsers → Bytes → List (Address × Bytes) → Option (List Text) → Value
unfolding await_answer fetch_device_info_tcp minimal
probe_upstream ps upstream_ip datagrams lines = elim (await_answer ps upstream_ip datagrams) [
  | some v ↦ v
  | none ↦ unwrap_or (fetch_device_info_tcp ps lines) minimal
]

-- The identity of the telescope, where the user has given one.
pub record Identity : Type 0 where
  pub sn : String
  pub model : Option String
  pub bssid : Option String

-- `device_info` before its address is patched. An identity makes the probe needless.
unfoldable pub device_info :
    (format_ssid : String → String)
    → Option Identity
    → Parsers
    → Bytes
    → List (Address × Bytes)
    → Option (List Text)
    → Value
unfolding probe_upstream build_configured_response
device_info format_ssid none ps upstream_ip datagrams lines =
    probe_upstream ps upstream_ip datagrams lines
device_info format_ssid (some i) ps upstream_ip datagrams lines =
    build_configured_response format_ssid i.sn i.model i.bssid "0.0.0.0"

-- An IP address is its four or sixteen bytes.
abbrev pub is_unspecified : Bytes → Bool
is_unspecified [] = true
is_unspecified (b ∷ bs) = b == 0 && is_unspecified bs

abbrev pub unspecified_v4 : Bytes
unspecified_v4 = 0 ∷ 0 ∷ 0 ∷ 0 ∷ []

abbrev is_loopback_v4 : Bytes → Bool
is_loopback_v4 [] = false
is_loopback_v4 (b ∷ bs) = b == 127

-- The address that the app is told, with the one that routing finds.
unfoldable pub proxy_ip : Bytes → Bytes → Bytes
proxy_ip bind_addr routed = if is_unspecified bind_addr then routed else bind_addr

-- The address that the receiving socket is bound to.
unfoldable pub recv_bind_ip : Bytes → Bytes
recv_bind_ip bind_addr =
    if length bind_addr == 4 && (not (is_loopback_v4 bind_addr) && not (is_unspecified bind_addr))
    then unspecified_v4
    else bind_addr

-- The address that the replies leave from: a socket of its own is bound where the receiving one is
-- not bound to `bind_addr`.
unfoldable pub send_bind_ip : Bytes → Bytes
unfolding recv_bind_ip text_eq
send_bind_ip bind_addr =
    if is_unspecified bind_addr || text_eq bind_addr (recv_bind_ip bind_addr)
    then recv_bind_ip bind_addr
    else bind_addr
