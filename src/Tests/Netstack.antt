-- ===== src/Tests/Netstack.antt =====
-- src/wireguard/netstack.rs: the stack over sockets that hold what the packets bring.
use seestar_proxy.Base.{
  ℕ, ◌≡◌, refl, sym, ap, ◌∙◌, inl, inr, Bool, true, false, not, ◌&&◌, Bool-cases, some, List, [],
  ◌∷◌, ◌++◌, append-nil, append_assoc, arith, ◌==◌, ==_iff, if◌then◌else◌, take, drop,
  take-append-drop, length,
}
use seestar_proxy.Base.Text.{Bytes}
use seestar_proxy.Wireguard.Netstack.{
  contains_key, new, DeviceCall, receives, transmits, inject_opt, Smoltcp, Turn, Listeners,
  accepted, to_proxy, dropped, to_socket, to_tunnel, Stack, turn, run_stack,
}
use seestar_proxy.Wireguard.Netstack.Streams.{delivered, Streaming, arrivals, run_stack-delivered}
use seestar_proxy.Wireguard.Netstack.Connections.{Steady, announced, turn-Serves}

-- A packet is the handle of a socket and the bytes for it; each is answered by the handle alone. A
-- socket is active once a packet came.
abbrev State : Type 0
State = ℕ → Bool × Bytes

abbrev add : ℕ → Bytes → State → State
add k bs s h = if h == k then (true, (s k).1 ++ bs) else s h

abbrev feed : State → List Bytes → State
feed s [] = s
feed s ([] ∷ ps) = feed s ps
feed s ((k ∷ bs) ∷ ps) = feed (add k bs s) ps

abbrev answers : List Bytes → List DeviceCall
answers [] = []
answers ([] ∷ ps) = receives ∷ answers ps
answers ((k ∷ bs) ∷ ps) = receives ∷ transmits (k ∷ []) ∷ answers ps

abbrev put : ℕ → Bytes → State → State
put k bs s h = if h == k then ((s k).0, bs) else s h

abbrev toy : Smoltcp
toy = record {
  Sockets = State;
  poll = λ now s q. (feed s q, answers q, true);
  is_active = λ s h. (s h).0;
  can_recv = λ s h. true;
  can_send = λ s h. true;
  recv_slice = λ n s h. (put h (drop n (s h).1) s, some (take n (s h).1));
  send_slice = λ bs s h. (s, length bs);
}

abbrev brings : ℕ → List Bytes → Bytes
brings h [] = []
brings h ([] ∷ ps) = brings h ps
brings h ((k ∷ bs) ∷ ps) = (if h == k then bs else []) ++ brings h ps

feed_lem : (q : List Bytes) (s : State) (h : ℕ) → (feed s q h).1 ≡ (s h).1 ++ brings h q
feed_lem [] s h = sym (append-nil (s h).1)
feed_lem ([] ∷ ps) s h = feed_lem ps s h
feed_lem ((k ∷ bs) ∷ ps) s h = elim (Bool-cases (h == k)) [
  | inl e ↦
      feed_lem ps (add k bs s) h
      ∙ rw (e, (==_iff h k).0 e)
          (append_assoc (s k).1 bs (brings k ps)
            ∙ ap (λ x. (s k).1 ++ (bs ++ brings x ps)) (sym ((==_iff h k).0 e)))
  | inr e ↦ feed_lem ps (add k bs s) h ∙ rw e refl
]

toy-Streaming : Streaming toy (λ now s q h. brings h q)
toy-Streaming = record {
  rx = λ s h. (s h).1;
  poll-rx = λ now s q h. feed_lem q s h;
  recv-rx = λ n s h. rw ((==_iff h h).1 refl) (take-append-drop n (s h).1);
  recv-other = λ n s h k apart. elim (Bool-cases (h == k)) [
    | inl e ↦ absurd (apart ((==_iff h k).0 e))
    | inr e ↦ rw e refl
  ];
  send-rx = λ bs s h k. refl;
}

toy-Steady : Steady toy
toy-Steady = record {
  recv-is_active = λ n s h k. elim (Bool-cases (h == k)) [
    | inl e ↦ rw (e, (==_iff h k).0 e) refl
    | inr e ↦ rw e refl
  ];
  send-is_active = λ bs s h k. refl;
}

abbrev listeners : Listeners
listeners = record {
  control_handle = 0;
  imaging_handle = 1;
  control_port = 4700;
  imaging_port = 4800;
}

abbrev start : Stack toy
start = record { device = new 1420; sockets = λ h. (false, []); active = [] }

-- A packet, with room in every channel, or in none.
abbrev packet_turn : Bool → Bytes → Turn
packet_turn room p = record {
  packet = some p;
  now = 0;
  conn_room = λ h. true;
  room = λ h. room;
  message = λ h. some (7 ∷ []);
  egress_room = λ i. true;
}

abbrev two_turns : List Turn
two_turns = packet_turn true (0 ∷ 8 ∷ 9 ∷ []) ∷ packet_turn true (0 ∷ 5 ∷ []) ∷ []

two_turns_effects :
    (run_stack toy listeners two_turns start).1
    ≡ accepted 0 4700
      ∷ to_proxy 0 (8 ∷ 9 ∷ [])
      ∷ to_socket 0 (7 ∷ []) 1
      ∷ to_tunnel (0 ∷ [])
      ∷ to_proxy 0 (5 ∷ [])
      ∷ to_socket 0 (7 ∷ []) 1
      ∷ to_tunnel (0 ∷ [])
      ∷ []
unfolding run_stack new
two_turns_effects = refl

-- Bytes that find the channel full are gone: they have left the socket.
full_channel :
    (run_stack toy listeners
      (packet_turn false (0 ∷ 8 ∷ []) ∷ packet_turn true (0 ∷ 5 ∷ []) ∷ [])
      start).1
    ≡ accepted 0 4700
      ∷ dropped 0 (8 ∷ [])
      ∷ to_socket 0 (7 ∷ []) 1
      ∷ to_tunnel (0 ∷ [])
      ∷ to_proxy 0 (5 ∷ [])
      ∷ to_socket 0 (7 ∷ []) 1
      ∷ to_tunnel (0 ∷ [])
      ∷ []
unfolding run_stack new
full_channel = refl

run_stack-delivered_example :
    let (st', es) = run_stack toy listeners two_turns start in
    delivered 0 es ++ (st'.sockets 0).1
    ≡ [] ++ arrivals toy listeners (λ now s q h. brings h q) 0 two_turns start
unfolding toy-Streaming
run_stack-delivered_example =
    run_stack-delivered toy toy-Streaming 0 listeners two_turns start (refl, (refl, tt))

turn-Serves_example :
    let t = packet_turn true (0 ∷ 8 ∷ 9 ∷ []) in
    let (st', es) = turn toy listeners t start in
    let s = feed start.sockets (inject_opt t.packet start.device).rx_queue in
    (contains_key 0 st'.active ≡ toy.is_active st'.sockets 0)
    × (announced 0 es ≡ (if toy.is_active s 0 && not (contains_key 0 []) then 1 else 0))
turn-Serves_example =
    turn-Serves toy toy-Steady 0 listeners (packet_turn true (0 ∷ 8 ∷ 9 ∷ [])) start
      (λ e. ground arith) (inl refl) refl
