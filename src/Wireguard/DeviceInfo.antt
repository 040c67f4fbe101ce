-- ===== src/Wireguard/DeviceInfo.antt =====
-- src/wireguard/mod.rs: the device information for the tunnel's clients, asked for once at the start,
-- and the endpoint that they are given. src/wireguard/qr.rs: their configuration.
use seestar_proxy.Base.{
  ℕ, Bool, true, not, ◌&&◌, Option, none, some, List, [], ◌∷◌, ◌++◌, if◌then◌else◌, unwrap_or,
}
use seestar_proxy.Base.Text.{Bytes, Text, codes, decimal, text_eq, trim, can_slice, from_utf8_lossy}
use seestar_proxy.Json.{Value, boolean, number, pos_int, string, object, field, end, get, Serde}
use seestar_proxy.Discovery.{Address}
use seestar_proxy.Discovery.Probe.{from_state, envelope}
use seestar_proxy.Wireguard.Packets.{Look, found, panicked}

-- serde_json, and whether the log shows `info`.
pub record Env : Type 0 where
  pub serde : Serde
  pub info_on : Bool

abbrev pub printed : Env → Value → Text
printed env v = unwrap_or (env.serde.to_string v) []

unfoldable pub default_device_info : Env → Text
default_device_info env = printed env (
    envelope (
      field "sn" (string "proxy") (
        field "product_model" (string "Seestar (via proxy)") (
          field "ssid" (string "Seestar_proxy") (
            field "is_verified" (boolean true)
              (field "tcp_client_num" (number (pos_int 0)) end))))))

-- The first line that comes, if the connection, the request and the read go well in time.
unfoldable pub fetch_device_info_tcp : Env → Option Text → Text
unfolding trim from_state get default_device_info
fetch_device_info_tcp env none = default_device_info env
fetch_device_info_tcp env (some line) = elim (env.serde.from_str (trim line)) [
  | none ↦ default_device_info env
  | some parsed ↦ printed env (from_state (unwrap_or (get parsed "result") (object end)))
]

-- The first datagram of the telescope in time, whatever it holds.
unfoldable pub await_response : Bytes → List (Address × Bytes) → Option Text
unfolding text_eq from_utf8_lossy
await_response upstream_ip [] = none
await_response upstream_ip ((src, buf) ∷ ds) =
    let later = await_response upstream_ip ds in
    if text_eq src.ip upstream_ip then some (from_utf8_lossy buf) else later

-- It panics where the log cuts the response inside a character.
unfoldable pub fetch_device_info :
    Env → Bytes → List (Address × Bytes) → (line : Option Text) → Look Text
unfolding await_response fetch_device_info_tcp can_slice
fetch_device_info env upstream_ip datagrams line = elim (await_response upstream_ip datagrams) [
  | some response ↦ if env.info_on && not (can_slice 200 response) then panicked else found response
  | none ↦ found (fetch_device_info_tcp env line)
]

-- The endpoint of the clients: the given one, or the detected or the bound address with the port.
unfoldable pub endpoint : Option Text → (detected : Option Text) → (bind_addr : Text) → ℕ → Text
unfolding decimal
endpoint (some e) detected bind_addr port = e
endpoint none detected bind_addr port = unwrap_or detected bind_addr ++ (codes ":" ++ decimal port)

-- `client_config`, line by line.
unfoldable pub client_config_lines : (private address server endpoint allowed : Text) → List Text
client_config_lines private address server endpoint allowed =
    codes "[Interface]"
    ∷ (codes "PrivateKey = " ++ private)
    ∷ (codes "Address = " ++ address)
    ∷ codes "DNS = 10.99.0.1, 1.1.1.1"
    ∷ []
    ∷ codes "[Peer]"
    ∷ (codes "PublicKey = " ++ server)
    ∷ (codes "Endpoint = " ++ endpoint)
    ∷ (codes "AllowedIPs = " ++ allowed)
    ∷ codes "PersistentKeepalive = 25"
    ∷ []

abbrev pub each_line : List Text → Text
each_line [] = []
each_line (l ∷ ls) = l ++ codes "\n" ++ each_line ls

unfoldable pub client_config : (private address server endpoint allowed : Text) → Text
unfolding client_config_lines
client_config private address server endpoint allowed =
    each_line (client_config_lines private address server endpoint allowed)
