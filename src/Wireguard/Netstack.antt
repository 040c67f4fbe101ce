-- ===== src/Wireguard/Netstack.antt =====
-- src/wireguard/netstack.rs: the virtual device, and the loop of `run_stack` between the packets of
-- the tunnel, the sockets of smoltcp and the channels of the proxy. smoltcp is a parameter, and what
-- a channel of tokio answers is an input of each turn.
pub mod Device
pub mod Streams
pub mod Connections
use seestar_proxy.Base.{
  ℕ, zero, suc, Bool, true, false, not, ◌&&◌, ◌||◌, Option, none, some, List, [], ◌∷◌, ◌++◌,
  if◌then◌else◌, ◌==◌, length,
}
use seestar_proxy.Base.Text.{Bytes}

-- The queues' heads are their fronts.
pub record VirtualDevice : Type 0 where
  pub rx_queue : List Bytes
  pub tx_queue : List Bytes
  pub mtu : ℕ

unfoldable pub new : ℕ → VirtualDevice
new mtu = record { rx_queue = []; tx_queue = []; mtu = mtu }

unfoldable pub inject : Bytes → VirtualDevice → VirtualDevice
inject packet d = record d { rx_queue = d.rx_queue ++ packet ∷ [] }

-- The `select!`: a packet of the tunnel, or a tick of the timer.
abbrev pub inject_opt : Option Bytes → VirtualDevice → VirtualDevice
inject_opt none d = d
inject_opt (some packet) d = inject packet d

pop : List Bytes → Option (Bytes × List Bytes)
pop [] = none
pop (p ∷ ps) = some (p, ps)

unfoldable pub drain : VirtualDevice → Option Bytes × VirtualDevice
unfolding pop
drain d = elim (pop d.tx_queue) [
  | none ↦ (none, d)
  | some (p, ps) ↦ (some p, record d { tx_queue = ps })
]

-- The packet of the token of `receive`.
unfoldable pub receive : VirtualDevice → Option Bytes × VirtualDevice
unfolding pop
receive d = elim (pop d.rx_queue) [
  | none ↦ (none, d)
  | some (p, ps) ↦ (some p, record d { rx_queue = ps })
]

-- `VirtTxToken::consume`, with the buffer that smoltcp has filled.
unfoldable pub consume : Bytes → VirtualDevice → VirtualDevice
consume buf d = record d { tx_queue = d.tx_queue ++ buf ∷ [] }

-- How smoltcp uses the device: it takes a packet in, or fills a transmit token.
pub data DeviceCall : Type 0 where
  receives : DeviceCall
  transmits : Bytes → DeviceCall

abbrev pub opt_to_list {ℓ} : {A : Type ℓ} → Option A → List A
opt_to_list none = []
opt_to_list (some a) = a ∷ []

-- The device after the calls, and the packets that they took in.
unfoldable pub run_calls : List DeviceCall → VirtualDevice → VirtualDevice × List Bytes
unfolding receive consume
run_calls [] d = (d, [])
run_calls (receives ∷ cs) d =
    let (p, d') = receive d in let (d'', ps) = run_calls cs d' in (d'', opt_to_list p ++ ps)
run_calls (transmits buf ∷ cs) d = run_calls cs (consume buf d)

-- smoltcp: the interface with its sockets. `poll` reads the clock and the packets that wait, and
-- gives the sockets after it, its calls on the device and whether it reports `SocketStateChanged`.
-- `recv_slice` has a limit and gives none for an error; `send_slice` says how much it has queued.
pub record Smoltcp : Type 1 where
  pub Sockets : Type 0
  pub poll : ℕ → Sockets → List Bytes → Sockets × List DeviceCall × Bool
  pub is_active : Sockets → ℕ → Bool
  pub can_recv : Sockets → ℕ → Bool
  pub can_send : Sockets → ℕ → Bool
  pub recv_slice : ℕ → Sockets → ℕ → Sockets × Option Bytes
  pub send_slice : Bytes → Sockets → ℕ → Sockets × ℕ

-- What one turn of the loop meets: the packet of the tunnel, unless the timer ticked; the clock; and
-- the channels: whether a new connection is taken, whether a connection's bytes are, what the proxy
-- has for a connection, and whether the packets for the tunnel are taken, by their numbers.
pub record Turn : Type 0 where
  pub packet : Option Bytes
  pub now : ℕ
  pub conn_room : ℕ → Bool
  pub room : ℕ → Bool
  pub message : ℕ → Option Bytes
  pub egress_room : ℕ → Bool

-- What a turn does: a connection for the proxy, or one that found no room; a connection's bytes for
-- the proxy, or bytes that found no room; a message of the proxy with how much of it was queued; and
-- a packet for the tunnel, or one that found no room. A connection is named by its socket's handle.
pub data Effect : Type 0 where
  accepted refused : (handle port : ℕ) → Effect
  to_proxy dropped : (handle : ℕ) → Bytes → Effect
  to_socket : (handle : ℕ) → Bytes → ℕ → Effect
  to_tunnel lost : Bytes → Effect

abbrev pub contains_key : ℕ → List ℕ → Bool
contains_key h [] = false
contains_key h (k ∷ ks) = h == k || contains_key h ks

-- The inner `while` over `drain`, with the number of the next packet. Fuel: the packets that wait.
unfoldable pub drain_all : ℕ → (ℕ → Bool) → ℕ → VirtualDevice → VirtualDevice × List Effect
unfolding drain
drain_all zero egress_room i d = (d, [])
drain_all (suc fuel) egress_room i d =
    let (p, d') = drain d in
    let (d'', es) = drain_all fuel egress_room (suc i) d' in
    elim p [
      | none ↦ (d', [])
      | some packet ↦ (d'', (if egress_room i then to_tunnel packet else lost packet) ∷ es)
    ]

-- The `match` on what `recv_slice` gave.
unfoldable pub pass_on : Turn → ℕ → Option Bytes → List Effect
pass_on t h none = []
pass_on t h (some []) = []
pass_on t h (some (b ∷ bs)) = (if t.room h then to_proxy h (b ∷ bs) else dropped h (b ∷ bs)) ∷ []

-- The listen sockets, which `add_listen_socket` has made.
pub record Listeners : Type 0 where
  pub control_handle : ℕ
  pub imaging_handle : ℕ
  pub control_port : ℕ
  pub imaging_port : ℕ

module _ (tcp : Smoltcp) where
  open tcp use {Sockets, poll, is_active, can_recv, can_send, recv_slice, send_slice}

  -- The keys of `active_connections` are the handles of its sockets.
  pub record Stack : Type 0 where
    pub device : VirtualDevice
    pub sockets : Sockets
    pub active : List ℕ

  -- One listen socket: the connections, and what is said.
  unfoldable pub accept_on : Turn → Sockets → ℕ → ℕ → List ℕ → List ℕ × List Effect
  accept_on t s handle port active =
      if is_active s handle && not (contains_key handle active)
      then (
        active ++ handle ∷ [],
        (if t.conn_room port then accepted handle port else refused handle port) ∷ [],
      )
      else (active, [])

  -- From the socket to the proxy.
  unfoldable pub read_socket : Turn → ℕ → Sockets → Sockets × List Effect
  unfolding pass_on
  read_socket t h s =
      let (s', r) = recv_slice 4096 s h in if can_recv s h then (s', pass_on t h r) else (s, [])

  -- From the proxy to the socket. A message is taken off its channel only if the socket can send.
  unfoldable pub write_socket : Turn → ℕ → Sockets → Sockets × List Effect
  write_socket t h s =
      if can_send s h
      then elim (t.message h) [
        | none ↦ (s, [])
        | some msg ↦ let (s', n) = send_slice msg s h in (s', to_socket h msg n ∷ [])
      ]
      else (s, [])

  -- One connection, and whether it stays.
  unfoldable pub transfer : Turn → ℕ → Sockets → Sockets × List Effect × Bool
  unfolding read_socket write_socket
  transfer t h s =
      let (s', es) = read_socket t h s in
      let (s'', fs) = write_socket t h s' in
      if is_active s h then (s'', es ++ fs, true) else (s, [], false)

  -- The connections in turn; those whose socket is closed are removed.
  unfoldable pub transfer_all : Turn → List ℕ → Sockets → Sockets × List Effect × List ℕ
  unfolding transfer
  transfer_all t [] s = (s, [], [])
  transfer_all t (h ∷ hs) s =
      let (s', es, stays) = transfer t h s in
      let (s'', fs, kept) = transfer_all t hs s' in
      (s'', es ++ fs, if stays then h ∷ kept else kept)

  module _ (l : Listeners) where
    -- The body of `if result == SocketStateChanged`.
    unfoldable pub serve : Turn → Sockets → List ℕ → Sockets × List Effect × List ℕ
    unfolding accept_on transfer_all
    serve t s active =
        let (active', es) = accept_on t s l.control_handle l.control_port active in
        let (active'', fs) = accept_on t s l.imaging_handle l.imaging_port active' in
        let (s', gs, kept) = transfer_all t active'' s in (s', es ++ (fs ++ gs), kept)

    -- One turn of the loop: the stack after it, and what it did.
    unfoldable pub turn : Turn → Stack → Stack × List Effect
    unfolding inject run_calls serve drain_all
    turn t st =
        let d = inject_opt t.packet st.device in
        let (s, calls, changed) = poll t.now st.sockets d.rx_queue in
        let (d', taken) = run_calls calls d in
        let (s', es, active') = if changed then serve t s st.active else (s, [], st.active) in
        let (d'', fs) = drain_all (length d'.tx_queue) t.egress_room 0 d' in
        (record { device = d''; sockets = s'; active = active' }, es ++ fs)

    -- Turns one after the other.
    unfoldable pub run_stack : List Turn → Stack → Stack × List Effect
    unfolding turn
    run_stack [] st = (st, [])
    run_stack (t ∷ ts) st =
        let (st', es) = turn t st in let (st'', fs) = run_stack ts st' in (st'', es ++ fs)
