-- ===== src/Tests/Tunnel.antt =====
-- src/wireguard/mod.rs: the packet loop over a tunnel that holds the packets that wait.
use seestar_proxy.Base.{
  ℕ, ltb, ◌≢◌, ◌+◌, ◌≡◌, refl, sym, inl, inr, Bool-cases, subst, ◌==◌, if◌then◌else◌, true, false,
  none, some, List, [], ◌∷◌, ◌++◌, arith, length,
}
use seestar_proxy.Base.Text.{Bytes}
use seestar_proxy.Wireguard.Packets.{found, panicked}
use seestar_proxy.Wireguard.Dns.{handle_dns_query}
use seestar_proxy.Wireguard.Discovery.{handle_discovery, parse_discovery_request, handle_icmp_echo}
use seestar_proxy.Wireguard.Tunnel.{
  TunnResult, done, write_to_network, write_to_tunnel_v4, err, to_peer, Env,
}
use seestar_proxy.Wireguard.Tunnel.Loop.{
  Boringtun, Reply, receive_active, Event, received, egress, discovery_timer, sent, handed_on,
  State, handle_event, packet_loop,
}
use seestar_proxy.Wireguard.Tunnel.Loop.Addresses.{last_source, Addressed, packet_loop-Addressed}
use seestar_proxy.Wireguard.Tunnel.Loop.Rounds.{Documented, flushed, receive_active-ends}
use seestar_proxy.Wireguard.Tunnel.Loop.Faults.{packet_loop-panics}
use seestar_proxy.Tests.Wireguard.{truncated, truncated-IsDiscovery}

-- The greatest timestamp, and the packets that wait.
abbrev Session : Type 0
Session = ℕ × List Bytes

-- A datagram that begins with 1 carries a short packet; any other begins with its timestamp and is a
-- message of a handshake, which is answered if it is newer than those before.
abbrev open_datagram : Session → Bytes → Session × TunnResult
open_datagram (last, []) [] = ((last, []), done)
open_datagram (last, p ∷ q) [] = ((last, q), write_to_network p)
open_datagram (last, q) (b ∷ bs) =
    if b == 1
    then ((last, q), write_to_tunnel_v4 (0x45 ∷ []))
    else if ltb last b
    then ((b, q), write_to_network (9 ∷ []))
    else ((last, q), err)

abbrev queue : Boringtun
queue = record {
  Tunn = Session;
  encapsulate = λ s p. (s, write_to_network (5 ∷ p));
  decapsulate = open_datagram;
  update_timers = λ s. (s, done);
}

flushes :
    (last : ℕ) (q : List Bytes) → (open_datagram (flushed queue (length q) (last, q)) []).1 ≡ done
flushes last [] = refl
flushes last (p ∷ q) = flushes last q

flush-last : (last : ℕ) (q : List Bytes) → (open_datagram (last, q) []).0.0 ≡ last
flush-last last [] = refl
flush-last last (p ∷ q) = refl

ltb_irrefl : (n : ℕ) → ltb n n ≡ false
ltb_irrefl n = ground arith

old_rejected :
    (b last : ℕ) (bs out : Bytes) (q : List Bytes)
    → (b == 1) ≡ false
    → last ≡ b
    → (open_datagram (last, q) (b ∷ bs)).1 ≢ write_to_network out
old_rejected b last bs out q e f g = absurd (ground (arith, ltb_irrefl b))

rejects_replay :
    (t : Session) (b : ℕ) (bs out out' : Bytes)
    → (open_datagram t (b ∷ bs)).1 ≡ write_to_network out
    → (open_datagram (open_datagram (open_datagram t (b ∷ bs)).0 []).0 (b ∷ bs)).1
      ≢ write_to_network out'
rejects_replay (last, q) b bs out out' e = elim (Bool-cases (b == 1)) [
  | inl f ↦ absurd (ground arith)
  | inr f ↦ elim (Bool-cases (ltb last b)) [
    | inr g ↦ absurd (ground arith)
    | inl g ↦
        subst
          (λ (t : Session).
            (open_datagram (open_datagram t []).0 (b ∷ bs)).1 ≢ write_to_network out')
          (sym (renewed f g))
          (old_rejected b (open_datagram (b, q) []).0.0 bs out' (open_datagram (b, q) []).0.1 f
            (flush-last b q))
  ]
]
  where
    renewed : (b == 1) ≡ false → ltb last b ≡ true → (open_datagram (last, q) (b ∷ bs)).0 ≡ (b, q)
    renewed f g = rw (f, g) refl

queue-Documented : Documented queue
queue-Documented = record {
  flush_count = λ s. length s.1;
  flushes = λ s. flushes s.0 s.1;
  rejects_replay = rejects_replay;
}

abbrev env : Env
env = record {
  to_lowercase = λ s. s;
  serde = record { from_str = λ s. none; to_string = λ v. none };
  upstream_ip = 10 ∷ 0 ∷ 0 ∷ 1 ∷ [];
  device_info = [];
}

-- Two packets wait, and the message of a handshake is answered: one of them is sent after the answer,
-- and the second round, in which the message is old, ends the loop.
receive_active_twice :
    receive_active queue 4 env true (2 ∷ []) (0, (7 ∷ []) ∷ (8 ∷ []) ∷ [])
    ≡ some (found ((2, (8 ∷ []) ∷ []), true, to_peer (9 ∷ []) ∷ to_peer (7 ∷ []) ∷ []))
unfolding receive_active
receive_active_twice = refl

receive_active-ends_example :
    (reply : Reply queue) × (receive_active queue 4 env true (2 ∷ []) (0, (7 ∷ []) ∷ (8 ∷ []) ∷ [])
      ≡ some reply)
    × (receive_active queue 9 env true (2 ∷ []) (0, (7 ∷ []) ∷ (8 ∷ []) ∷ []) ≡ some reply)
unfolding queue-Documented
receive_active-ends_example =
    receive_active-ends queue queue-Documented 4 9 env true (2 ∷ []) (0, (7 ∷ []) ∷ (8 ∷ []) ∷ [])
      (omega arith) (omega arith)

abbrev idle : State queue ℕ
idle = record { tunn = (0, (7 ∷ []) ∷ []); peer_addr = none; session_active = false }

abbrev events : List (Event ℕ)
events =
    egress (6 ∷ []) ∷ received 40 (1 ∷ []) true ∷ egress (6 ∷ []) ∷ received 41 (2 ∷ []) true ∷ []

abbrev busy : State queue ℕ
busy = record { tunn = (2, []); peer_addr = some 41; session_active = true }

abbrev rounds : Session → ℕ
rounds s = length s.1 + 2

three_sent :
    packet_loop queue ℕ rounds env events idle
    ≡ some (
        found (
          busy,
          handed_on (0x45 ∷ []) ∷ sent 40 (5 ∷ 6 ∷ []) ∷ sent 41 (9 ∷ []) ∷ sent 41 (7 ∷ []) ∷ [],
        ))
unfolding packet_loop handle_dns_query handle_discovery parse_discovery_request handle_icmp_echo
three_sent = refl

packet_loop-Addressed_example :
    Addressed queue ℕ
      (last_source idle.peer_addr (events ++ discovery_timer ∷ []))
      (handle_event queue ℕ rounds env discovery_timer busy)
packet_loop-Addressed_example =
    packet_loop-Addressed queue ℕ rounds env events discovery_timer idle busy _ three_sent

-- A tunnel whose datagrams are their packets.
abbrev plain : Boringtun
plain = record {
  Tunn = ℕ;
  encapsulate = λ s p. (s, write_to_network p);
  decapsulate = λ s p. (s, write_to_tunnel_v4 p);
  update_timers = λ s. (s, done);
}

packet_loop-panics_example :
    packet_loop plain ℕ
      (λ s. 3)
      env
      (received 40 truncated true ∷ egress (6 ∷ []) ∷ [])
      (record { tunn = 0; peer_addr = none; session_active = true })
    ≡ some panicked
packet_loop-panics_example =
    packet_loop-panics plain ℕ (λ s. 3) env
      (record { tunn = 0; peer_addr = none; session_active = true }) 40 truncated truncated true 2
      (egress (6 ∷ []) ∷ []) refl refl truncated-IsDiscovery (omega arith)
