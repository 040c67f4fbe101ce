-- ===== src/Discovery.antt =====
-- src/discovery.rs: the bridge that answers discovery requests in the telescope's place: the device
-- information it starts with, and its receive loop, one packet at a time. The probe of the telescope
-- and the sockets are I/O.
pub mod Replies
pub mod Probe
use seestar_proxy.Base.{
  ℕ, String, Bool, true, false, not, ◌&&◌, ◌||◌, Option, none, some, List, [], ◌∷◌, ◌++◌,
  if◌then◌else◌, is_some, unwrap_or, ◌>>=◌, str_eq,
}
use seestar_proxy.Base.Text.{Bytes, Text, from_utf8, text_eq, trim}
use seestar_proxy.Json.{
  Value, null, boolean, number, pos_int, string, object, Fields, field, end, get, lookup, insert,
  as_str,
}

-- `result["ip"] = ..`: an assignment through `IndexMut` makes an object of null, and panics on any
-- other value that is no object.
unfoldable pub set_ip : String → Value → Option Value
set_ip ip (object fs) = some (object (insert "ip" (string ip) fs))
set_ip ip null = some (object (field "ip" (string ip) end))
set_ip ip _ = none

-- `if let Some(result) = v.get_mut("result") { result["ip"] = .. }`, or none where that panics.
unfoldable pub patch_ip : String → Value → Option Value
unfolding set_ip
patch_ip ip (object fs) = elim (lookup "result" fs) [
  | none ↦ some (object fs)
  | some result ↦ do patched ← set_ip ip result; some (object (insert "result" patched fs))
]
patch_ip ip v = some v

-- `pointer("/result/sn").and_then(as_str)`.
unfoldable pub serial : Value → Option String
unfolding get as_str
serial info = do result ← get info "result"; sn ← get result "sn"; as_str sn

unfoldable pub has_real_info : Value → Bool
has_real_info info = elim (serial info) [ none ↦ false | some sn ↦ not (str_eq sn "proxy") ]

-- `format!("S50_{}", sn)` is a parameter.
unfoldable pub build_configured_response :
    (format_ssid : String → String) → String → Option String → Option String → String → Value
build_configured_response format_ssid sn model bssid proxy_ip = object (
    field "jsonrpc" (string "2.0") (
      field "Timestamp" (string "0") (
        field "method" (string "scan_iscope") (
          field "result" (object result)
            (field "code" (number (pos_int 0)) (field "id" (number (pos_int 201)) end))))))
  where
    base : Fields
    base = field "product_model" (string (unwrap_or model "Seestar S50")) (
        field "sn" (string sn) (
          field "ssid" (string (format_ssid sn)) (
            field "ip" (string proxy_ip) (
              field "is_verified" (boolean true) (
                field "tcp_client_num" (number (pos_int 0)) (
                  field "can_star_mode_sel_cam" (boolean false)
                    (field "serc" (string "WPA-PSK") end)))))))

    result : Fields
    result = elim bssid [ none ↦ base | some b ↦ insert "bssid" (string b) base ]

-- An IP address is its bytes.
pub record Address : Type 0 where
  pub ip : Bytes
  pub port : ℕ

pub data Destination : Type 0 where
  requester : Address → Destination
  broadcast telescope : Destination

-- The JSON library, the proxy's own address as text, and the telescope's.
pub record Env : Type 0 where
  pub from_str : Text → Option Value
  pub to_vec : Value → Option Bytes
  pub proxy_ip : String
  pub upstream_ip : Bytes

pub record Bridge : Type 0 where
  pub device_info : Value
  pub have_real_info : Bool

-- How the loop goes on: with the next packet, out by the `?` of a failed serialisation, or by a panic.
pub data Flow : Type 0 where
  next error panic : Flow

abbrev pub Outcome : Type 0
Outcome = Bridge × List (Destination × Bytes) × Flow

unfoldable pub probe : Env → Value
probe env = object (
    field "id" (number (pos_int 201)) (
      field "method" (string "scan_iscope")
        (field "name" (string "seestarproxy") (field "ip" (string env.proxy_ip) end))))

-- A packet with a result is an answer: only the telescope's is kept, and only until one is.
unfoldable pub note_response : Env → Address → Value → Bridge → Outcome
unfolding text_eq
note_response env src request b =
    if text_eq src.ip env.upstream_ip && not b.have_real_info
    then elim (patch_ip env.proxy_ip request) [
      | none ↦ (b, [], panic)
      | some updated ↦ (record { device_info = updated; have_real_info = true }, [], next)
    ]
    else (b, [], next)

unfoldable pub refresh : Env → Bridge → List (Destination × Bytes)
refresh env b =
    if b.have_real_info
    then []
    else elim (env.to_vec (probe env)) [ none ↦ [] | some bytes ↦ (telescope, bytes) ∷ [] ]

unfoldable pub answer : Env → Address → Bridge → Outcome
answer env src b = elim (env.to_vec b.device_info) [
  | none ↦ (b, [], error)
  | some bytes ↦ (b, (requester src, bytes) ∷ (broadcast, bytes) ∷ refresh env b, next)
]

unfoldable pub is_answer : Value → Bool
unfolding get
is_answer request = is_some (get request "result") || is_some (get request "code")

unfoldable pub handle_request : Env → Address → Value → Bridge → Outcome
unfolding get as_str
handle_request env src request b =
    if not (str_eq (unwrap_or (do v ← get request "method"; as_str v) "") "scan_iscope")
    then (b, [], next)
    else if is_answer request
    then note_response env src request b
    else answer env src b

-- One turn of the loop of `run`.
unfoldable pub handle_packet : Env → Address → Bytes → Bridge → Outcome
unfolding from_utf8 trim
handle_packet env src buf b = elim (do msg ← from_utf8 buf; env.from_str (trim msg)) [
  | none ↦ (b, [], next)
  | some request ↦ handle_request env src request b
]

-- The state before the loop.
unfoldable pub start : Env → Value → Option Bridge
start env info = do
  patched ← patch_ip env.proxy_ip info
  some (record { device_info = patched; have_real_info = has_real_info patched })

-- One turn of the loop, with the turns after it.
abbrev pub turn : (Bridge → Outcome) → Outcome → Outcome
turn later (b, sends, next) = let (b', more, stop) = later b in (b', sends ++ more, stop)
turn later (b, sends, error) = (b, sends, error)
turn later (b, sends, panic) = (b, sends, panic)

unfoldable pub run : Env → List (Address × Bytes) → Bridge → Outcome
run env [] b = (b, [], next)
run env ((src, buf) ∷ packets) b = turn (run env packets) (handle_packet env src buf b)
