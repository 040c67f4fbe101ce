-- ===== src/Wireguard/Tunnel.antt =====
-- src/wireguard/mod.rs: what the packet loop does with what comes out of the tunnel. boringtun's
-- `Tunn` is a parameter: its state, and its results as functions of it.
pub mod Interceptors
pub mod Loop
use seestar_proxy.Base.{
  ℕ, Bool, true, false, Option, none, some, List, [], ◌∷◌, ◌++◌, if◌then◌else◌,
}
use seestar_proxy.Base.Text.{Bytes, Text}
use seestar_proxy.Json.{Serde}
use seestar_proxy.Protocol.{discovery_port}
use seestar_proxy.Wireguard.Packets.{Look, ignored, found, panicked}
use seestar_proxy.Wireguard.Discovery.{build_discovery_response, handle_discovery, handle_icmp_echo}
use seestar_proxy.Wireguard.Dns.{handle_dns_query}

pub data TunnResult : Type 0 where
  done write_to_tunnel_v6 err : TunnResult
  write_to_network write_to_tunnel_v4 : Bytes → TunnResult

pub data TunnAction : Type 0 where
  finished go_on : TunnAction
  decrypted : Bytes → TunnAction

-- A datagram for the peer, or a packet for the TCP stack.
pub data Effect : Type 0 where
  to_peer injected : Bytes → Effect

-- `inject_tx.try_send` drops the packet if the channel has no room.
unfoldable pub process_tunn_result : Bool → TunnResult → List Effect × TunnAction
process_tunn_result room done = ([], finished)
process_tunn_result room (write_to_network bytes) = (to_peer bytes ∷ [], go_on)
process_tunn_result room (write_to_tunnel_v4 bytes) =
    (if room then injected bytes ∷ [] else [], decrypted bytes)
process_tunn_result room write_to_tunnel_v6 = ([], finished)
process_tunn_result room err = ([], finished)

-- The next interceptor is asked where one ignores the packet.
abbrev pub or_else {ℓ} : {A : Type ℓ} → Look A → Look A → Look A
or_else ignored next = next
or_else (found a) next = found a
or_else panicked next = panicked

abbrev pub datagram : TunnResult → List Effect
datagram (write_to_network bytes) = to_peer bytes ∷ []
datagram _ = []

-- The libraries, the telescope's address, and the JSON that describes it.
pub record Env : Type 0 where
  pub to_lowercase : Text → Text
  pub serde : Serde
  pub upstream_ip : Bytes
  pub device_info : Bytes

-- The reply to a decrypted packet: DNS first, then discovery, then ping.
unfoldable pub intercept : Env → Bytes → Look Bytes
intercept env packet = or_else (handle_dns_query env.to_lowercase packet env.upstream_ip) (
    or_else (handle_discovery env.serde packet env.upstream_ip env.device_info)
      (handle_icmp_echo packet env.upstream_ip))

abbrev pub client_ip : Bytes
client_ip = 10 ∷ 99 ∷ 0 ∷ 2 ∷ []

module _ {S : Type 0} (encapsulate : S → Bytes → S × TunnResult) where
  -- A packet back through the tunnel.
  abbrev pub send_back : S → Bytes → S × List Effect
  send_back tunn packet = let (tunn', result) = encapsulate tunn packet in (tunn', datagram result)

  -- The state of the tunnel and the datagrams sent, unless an interceptor panics.
  unfoldable pub handle_decrypted_packet : Env → Bytes → S → Look (S × List Effect)
  unfolding intercept
  handle_decrypted_packet env packet tunn = elim (intercept env packet) [
    | ignored ↦ found (tunn, [])
    | found reply ↦ found (send_back tunn reply)
    | panicked ↦ panicked
  ]

  -- The periodic announcement of `packet_loop`, while a session is active and the peer is known.
  unfoldable pub announce : Env → Bool → Bool → S → S × List Effect
  announce env session_active peer_known tunn =
      if session_active
      then (if peer_known
          then send_back tunn
              (build_discovery_response env.upstream_ip client_ip discovery_port env.device_info)
          else (tunn, []))
      else (tunn, [])

  module _ (decapsulate : S → Bytes → S × TunnResult) where
    -- The tunnel, whether the session is active, and what was sent, unless an interceptor panics.
    abbrev pub Received : Type 0
    Received = Look (S × Bool × List Effect)

    abbrev activates : TunnResult → Bool
    activates (write_to_tunnel_v4 bytes) = true
    activates _ = false

    abbrev pub reply_to : Env → List Effect → Bool → TunnAction → S → Received
    reply_to env sent active (decrypted packet) tunn =
        elim (handle_decrypted_packet env packet tunn) [
          | ignored ↦ found (tunn, active, sent)
          | found (tunn', more) ↦ found (tunn', active, sent ++ more)
          | panicked ↦ panicked
        ]
    reply_to env sent active _ tunn = found (tunn, active, sent)

    -- A datagram that arrives before the session is active.
    unfoldable pub receive_first : Env → Bool → Bytes → S → Received
    unfolding process_tunn_result handle_decrypted_packet
    receive_first env room bytes tunn =
        let (tunn', result) = decapsulate tunn bytes in
        let (sent, action) = process_tunn_result room result in
        reply_to env sent (activates result) action tunn'
