-- ===== src/Wireguard/Tunnel/Loop.antt =====
-- src/wireguard/mod.rs: `packet_loop`, one event of its `select!` at a time.
pub mod Addresses
pub mod Faults
pub mod Progress
pub mod Rounds
use seestar_proxy.Base.{
  ℕ, zero, suc, Bool, true, false, Option, none, some, List, [], ◌∷◌, ◌++◌, map, if◌then◌else◌,
  is_some,
}
use mathlib.Core.Option
use seestar_proxy.Base.Text.{Bytes}
use seestar_proxy.Wireguard.Packets.{Look, ignored, found, panicked}
use seestar_proxy.Wireguard.Tunnel.{
  TunnResult, write_to_network, TunnAction, finished, go_on, decrypted, Effect, to_peer, injected,
  process_tunn_result, datagram, Env, send_back, announce, Received, reply_to, receive_first,
}

-- boringtun's `Tunn`. `decapsulate` of no bytes asks for the next packet that waits to be sent.
pub record Boringtun : Type 1 where
  pub Tunn : Type 0
  pub encapsulate : Tunn → Bytes → Tunn × TunnResult
  pub decapsulate : Tunn → Bytes → Tunn × TunnResult
  pub update_timers : Tunn → Tunn × TunnResult

-- What an event brings: a failed read, a datagram with its source, a packet of the TCP stack, and the
-- two timers. `room` is whether the channel to the TCP stack takes a packet.
pub data Event (Addr : Type 0) : Type 0 where
  recv_error : Event Addr
  received : (src : Addr) → Bytes → (room : Bool) → Event Addr
  egress : Bytes → Event Addr
  timer : (room : Bool) → Event Addr
  discovery_timer : Event Addr

-- A datagram with its destination, or a packet for the TCP stack.
pub data Sent (Addr : Type 0) : Type 0 where
  sent : Addr → Bytes → Sent Addr
  handed_on : Bytes → Sent Addr

abbrev pub address_to : {Addr : Type 0} → Addr → Effect → Sent Addr
address_to a (to_peer bytes) = sent a bytes
address_to a (injected bytes) = handed_on bytes

module _ (wg : Boringtun) where
  open wg use {Tunn, encapsulate, decapsulate, update_timers}

  abbrev pub Reply : Type 0
  Reply = Received encapsulate decapsulate

  -- What was sent before comes first.
  abbrev pub prepend : List Effect → Reply → Reply
  prepend es ignored = ignored
  prepend es (found (t, active, fs)) = found (t, active, es ++ fs)
  prepend es panicked = panicked

  -- The inner loop over chained results, which decapsulates the same datagram in each round, and none
  -- if the fuel runs out.
  unfoldable pub receive_active : ℕ → Env → Bool → Bytes → Tunn → Option Reply
  unfolding process_tunn_result
  receive_active zero env room bytes t = none
  receive_active (suc fuel) env room bytes t =
      let (t', r) = decapsulate t bytes in
      let (es, action) = process_tunn_result room r in
      let (t'', cont) = decapsulate t' [] in
      let (fs, next) = process_tunn_result room cont in
      let rest = receive_active fuel env room bytes t'' in
      elim action [
        | finished ↦ some (found (t', true, es))
        | decrypted packet ↦
            some (reply_to encapsulate decapsulate env es true (decrypted packet) t')
        | go_on ↦ elim next [
          | finished ↦ some (found (t'', true, es ++ fs))
          | decrypted packet ↦
              some (reply_to encapsulate decapsulate env (es ++ fs) true (decrypted packet) t'')
          | go_on ↦ Option.map (prepend (es ++ fs)) rest
        ]
      ]

  module _ (Addr : Type 0) where
    pub record State : Type 0 where
      pub tunn : Tunn
      pub peer_addr : Option Addr
      pub session_active : Bool

    -- A state with what was sent, unless an interceptor panics; none without fuel.
    abbrev pub Outcome : Type 0
    Outcome = Option (Look (State × List (Sent Addr)))

    abbrev pub settle : Addr → Reply → Look (State × List (Sent Addr))
    settle src ignored = ignored
    settle src (found (t, active, es)) = found (
      record { tunn = t; peer_addr = some src; session_active = active },
      map (address_to src) es,
    )
    settle src panicked = panicked

    abbrev pub to_peer_addr :
        Option Addr → State → (Tunn → Tunn × List Effect) → State × List (Sent Addr)
    to_peer_addr none st act = (st, [])
    to_peer_addr (some addr) st act =
        let (t, es) = act st.tunn in (record st { tunn = t }, map (address_to addr) es)

    -- `fuel` is for the inner loop.
    unfoldable pub handle_event : (Tunn → ℕ) → Env → Event Addr → State → Outcome
    unfolding receive_active receive_first process_tunn_result announce
    handle_event fuel env recv_error st = some (found (st, []))
    handle_event fuel env (received src bytes room) st =
        if st.session_active
        then Option.map (settle src) (receive_active (fuel st.tunn) env room bytes st.tunn)
        else some (settle src (receive_first encapsulate decapsulate env room bytes st.tunn))
    handle_event fuel env (egress packet) st =
        some (found (to_peer_addr st.peer_addr st λ t. send_back encapsulate t packet))
    handle_event fuel env (timer room) st = some (
        found (
          to_peer_addr st.peer_addr st
            λ t. let (t', r) = update_timers t in (t', (process_tunn_result room r).0)))
    handle_event fuel env discovery_timer st = some (
        found (
          to_peer_addr st.peer_addr st
            λ t. announce encapsulate env st.session_active (is_some st.peer_addr) t))

    abbrev pub later :
        List (Sent Addr) → Look (State × List (Sent Addr)) → Look (State × List (Sent Addr))
    later es ignored = ignored
    later es panicked = panicked
    later es (found (st', fs)) = found (st', es ++ fs)

    abbrev pub and_then : Outcome → (State → Outcome) → Outcome
    and_then none f = none
    and_then (some ignored) f = some ignored
    and_then (some panicked) f = some panicked
    and_then (some (found (st, es))) f = Option.map (later es) (f st)

    unfoldable pub packet_loop : (Tunn → ℕ) → Env → List (Event Addr) → State → Outcome
    unfolding handle_event
    packet_loop fuel env [] st = some (found (st, []))
    packet_loop fuel env (e ∷ es) st =
        and_then (handle_event fuel env e st) (packet_loop fuel env es)
