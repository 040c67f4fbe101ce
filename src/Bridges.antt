-- ===== src/Bridges.antt =====
-- The tasks that copy bytes between two streams: `raw_pipe` of src/main.rs, and `bridge_to_local` of
-- src/wireguard/bridge.rs and of src/tailscale/bridge.rs, with the start of the Tailscale node in
-- src/tailscale/mod.rs. A read or a message stands with whether the write that follows it goes well.
pub mod Pipes
use seestar_proxy.Base.{
  ℕ, ◌+◌, ◌%◌, ◌^◌, String, Bool, true, false, not, ◌&&◌, Option, none, some, List, [], ◌∷◌, ◌++◌,
  if◌then◌else◌, length, ◌==◌,
}
use seestar_proxy.Base.Text.{Bytes}
use seestar_proxy.Metrics.{u64}

-- What `read` gives: bytes, none of them at the end of the stream, or an error.
pub data Read : Type 0 where
  chunk : Bytes → Read
  read_error : Read

abbrev pub Reads : Type 0
Reads = List (Read × Bool)

-- One direction of `raw_pipe`: the writes, and the number of bytes that the log ends with.
unfoldable pub pump : ℕ → Reads → List Bytes × ℕ
pump total [] = ([], total)
pump total ((read_error, ok) ∷ rs) = ([], total)
pump total ((chunk [], ok) ∷ rs) = ([], total)
pump total ((chunk (b ∷ bs), ok) ∷ rs) =
    let total' = u64 (total + length (b ∷ bs)) in
    let (more, end) = pump total' rs in if ok then ((b ∷ bs) ∷ more, end) else ([], total')

-- A client of `raw_pipe`. The next one is accepted when both directions are over.
pub data Session : Type 0 where
  accept_failed upstream_failed : Session
  piped : (client telescope : Reads) → Session

-- What the telescope and the client of each session are sent.
unfoldable pub raw_pipe : (bound : Bool) → List Session → List (List Bytes × List Bytes)
unfolding pump
raw_pipe false ss = []
raw_pipe true [] = []
raw_pipe true (accept_failed ∷ ss) = raw_pipe true ss
raw_pipe true (upstream_failed ∷ ss) = raw_pipe true ss
raw_pipe true (piped client telescope ∷ ss) =
    ((pump 0 client).0, (pump 0 telescope).0) ∷ raw_pipe true ss

-- The port of the proxy that takes a connection of the tunnel.
unfoldable pub local_port : (control imaging dest_port : ℕ) → ℕ
local_port control imaging dest_port = if dest_port == control then control else imaging

unfoldable pub tunnel_to_local : List (Bytes × Bool) → List Bytes
tunnel_to_local [] = []
tunnel_to_local ((bs, ok) ∷ ms) = let rest = tunnel_to_local ms in if ok then bs ∷ rest else []

-- The write is a message to the tunnel.
unfoldable pub local_to_tunnel : Reads → List Bytes
local_to_tunnel [] = []
local_to_tunnel ((read_error, ok) ∷ rs) = []
local_to_tunnel ((chunk [], ok) ∷ rs) = []
local_to_tunnel ((chunk (b ∷ bs), ok) ∷ rs) =
    let rest = local_to_tunnel rs in if ok then (b ∷ bs) ∷ rest else []

-- The bridge of the tunnel runs until both directions are over.
unfoldable pub bridge_to_local :
    (connected : Bool) → List (Bytes × Bool) → Reads → List Bytes × List Bytes
unfolding tunnel_to_local local_to_tunnel
bridge_to_local connected from_tunnel from_local =
    if connected then (tunnel_to_local from_tunnel, local_to_tunnel from_local) else ([], [])

pub data Side : Type 0 where
  tailnet local : Side

abbrev pub push : Side → Bytes → List Bytes × List Bytes → List Bytes × List Bytes
push tailnet bs (to_local, to_tailnet) = (bs ∷ to_local, to_tailnet)
push local bs (to_local, to_tailnet) = (to_local, bs ∷ to_tailnet)

-- The bridge of Tailscale ends with the first direction that ends. The reads of both sides come in
-- the order in which they are made.
unfoldable pub ts_bridge : List (Side × Read × Bool) → List Bytes × List Bytes
ts_bridge [] = ([], [])
ts_bridge ((side, read_error, ok) ∷ rs) = ([], [])
ts_bridge ((side, chunk [], ok) ∷ rs) = ([], [])
ts_bridge ((side, chunk (b ∷ bs), ok) ∷ rs) =
    let rest = ts_bridge rs in if ok then push side (b ∷ bs) rest else ([], [])

unfoldable pub ts_bridge_to_local :
    (nonblocking converted connected : Bool) → List (Side × Read × Bool) → List Bytes × List Bytes
unfolding ts_bridge
ts_bridge_to_local nonblocking converted connected rs =
    if nonblocking && (converted && connected) then ts_bridge rs else ([], [])

-- What libtailscale answers.
pub record Node : Type 0 where
  pub hostname_set : Bool
  pub dir_set : Bool
  pub authkey_set : String → Bool
  pub control_url_set : String → Bool
  pub up : Bool
  pub ips : Option (List Bytes)
  pub listens : ℕ → Bool

pub record TsInfo : Type 0 where
  pub hostname : String
  pub node_ip : Option Bytes

abbrev find_v4 : List Bytes → Option Bytes
find_v4 [] = none
find_v4 (ip ∷ ips) = let rest = find_v4 ips in if length ip == 4 then some ip else rest

abbrev accepts : (String → Bool) → Option String → Bool
accepts set none = true
accepts set (some s) = set s

abbrev listening : (ℕ → Bool) → List ℕ → List ℕ
listening listens [] = []
listening listens (p ∷ ps) = let rest = listening listens ps in if listens p then p ∷ rest else rest

-- The node and the ports that it accepts connections on, or none for an error. A state directory that
-- is no UTF-8 is an error too.
unfoldable pub ts_start :
    Node
    → (hostname : String) (authkey control_url : Option String) (dir_is_text : Bool)
    → (control_port imaging_port dashboard_port : ℕ) → Option (TsInfo × List ℕ)
ts_start node hostname authkey control_url dir_is_text control_port imaging_port dashboard_port =
    if dir_is_text
      && (node.hostname_set
          && (node.dir_set
              && (accepts node.authkey_set authkey
                  && (accepts node.control_url_set control_url && node.up))))
    then some (
      record {
        hostname = hostname;
        node_ip = elim node.ips [ none ↦ none | some ips ↦ find_v4 ips ];
      },
      listening node.listens
          (control_port ∷ imaging_port ∷ (if dashboard_port == 0 then [] else dashboard_port ∷ [])),
    )
    else none
