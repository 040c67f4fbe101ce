-- ===== src/Wireguard/Netstack/Device.antt =====
-- src/wireguard/netstack.rs: the order of the packets between the tunnel and smoltcp.
use seestar_proxy.Base.{
  ℕ, zero, suc, ◌≡◌, refl, sym, ap, ap₂, ◌∙◌, Bool, true, false, if◌then◌else◌, arith, List-cases,
  Bool-cases, inl, inr, Option, none, some, List, [], ◌∷◌, ◌++◌, append-nil, append_assoc, All,
  length,
}
use seestar_proxy.Base.Text.{Bytes}
use seestar_proxy.Wireguard.Netstack.{
  VirtualDevice, inject, inject_opt, opt_to_list, pop, drain, receive, consume, DeviceCall,
  receives, transmits, run_calls, Smoltcp, Turn, Listeners, Effect, accepted, refused, to_proxy,
  dropped, to_socket, to_tunnel, lost, drain_all, Stack, accept_on, pass_on, read_socket,
  write_socket, transfer, transfer_all, serve, turn, run_stack,
}

abbrev pub transmitted : List DeviceCall → List Bytes
transmitted [] = []
transmitted (receives ∷ cs) = transmitted cs
transmitted (transmits buf ∷ cs) = buf ∷ transmitted cs

-- The packets that the tunnel gets.
abbrev pub tunnelled : List Effect → List Bytes
tunnelled [] = []
tunnelled (to_tunnel p ∷ es) = p ∷ tunnelled es
tunnelled (_ ∷ es) = tunnelled es

tunnelled-append : (es fs : List Effect) → tunnelled (es ++ fs) ≡ tunnelled es ++ tunnelled fs
tunnelled-append [] fs = refl
tunnelled-append (to_tunnel p ∷ es) fs = ap (◌∷◌ p) (tunnelled-append es fs)
tunnelled-append (accepted _ _ ∷ es) fs = tunnelled-append es fs
tunnelled-append (refused _ _ ∷ es) fs = tunnelled-append es fs
tunnelled-append (to_proxy _ _ ∷ es) fs = tunnelled-append es fs
tunnelled-append (dropped _ _ ∷ es) fs = tunnelled-append es fs
tunnelled-append (to_socket _ _ _ ∷ es) fs = tunnelled-append es fs
tunnelled-append (lost _ ∷ es) fs = tunnelled-append es fs

silent-append :
    (es fs : List Effect) → tunnelled es ≡ [] → tunnelled fs ≡ [] → tunnelled (es ++ fs) ≡ []
silent-append es fs p q = rw (tunnelled-append es fs, p, q) refl

run_calls-rx :
    (cs : List DeviceCall) (d : VirtualDevice)
    → let (d', taken) = run_calls cs d in taken ++ d'.rx_queue ≡ d.rx_queue
unfolding run_calls receive consume pop
run_calls-rx [] d = refl
run_calls-rx (receives ∷ cs) d = elim (List-cases d.rx_queue) [
  | inl e ↦ rw (run_calls, receive, e) (run_calls-rx cs d ∙ e)
  | inr (p, ps, e) ↦
      rw (run_calls, receive, e) (ap (◌∷◌ p) (run_calls-rx cs (record d { rx_queue = ps })))
]
run_calls-rx (transmits buf ∷ cs) d = run_calls-rx cs (consume buf d)

run_calls-tx :
    (cs : List DeviceCall) (d : VirtualDevice)
    → (run_calls cs d).0.tx_queue ≡ d.tx_queue ++ transmitted cs
unfolding run_calls receive consume pop
run_calls-tx [] d = sym (append-nil d.tx_queue)
run_calls-tx (receives ∷ cs) d = elim (List-cases d.rx_queue) [
  | inl e ↦ rw (run_calls, receive, e) (run_calls-tx cs d)
  | inr (p, ps, e) ↦ rw (run_calls, receive, e) (run_calls-tx cs (record d { rx_queue = ps }))
]
run_calls-tx (transmits buf ∷ cs) d =
    run_calls-tx cs (consume buf d) ∙ append_assoc d.tx_queue (buf ∷ []) (transmitted cs)

drain-cons :
    (d : VirtualDevice) (p : Bytes) (ps : List Bytes)
    → d.tx_queue ≡ p ∷ ps
    → drain d ≡ (some p, record d { tx_queue = ps })
unfolding drain pop
drain-cons d p ps e = rw (drain, e) refl

-- The inner loop ends with an empty queue, and has sent its packets in their order.
Drained : VirtualDevice → VirtualDevice × List Effect → Type 0
Drained d (d', es) = (d'.rx_queue ≡ d.rx_queue) × (d'.tx_queue ≡ []) × (tunnelled es ≡ d.tx_queue)

drain_all-Drained :
    (room : ℕ → Bool)
    → ((i : ℕ) → room i ≡ true)
    → (n i : ℕ) (d : VirtualDevice) → length d.tx_queue ≡ n
    → Drained d (drain_all n room i d)
unfolding Drained drain_all
drain_all-Drained room takes zero i d e = elim (List-cases d.tx_queue) [
  | inl f ↦ (refl, f, sym f)
  | inr (p, ps, f) ↦ absurd (omega (arith, sym (ap length f) ∙ e))
]
drain_all-Drained room takes (suc n) i d e = elim (List-cases d.tx_queue) [
  | inl f ↦ absurd (omega (arith, sym (ap length f) ∙ e))
  | inr (p, ps, f) ↦
      let popped = drain-cons d p ps f in
      let one_less : length (drain d).1.tx_queue ≡ n =
        omega (arith, ap (λ x. length x.1.tx_queue) popped, sym (ap length f) ∙ e) in
      let (a, b, c) = drain_all-Drained room takes n (suc i) (drain d).1 one_less in
      rw (drain_all, ap (λ x. x.0) popped, takes i)
        (
          a ∙ ap (λ x. x.1.rx_queue) popped,
          b,
          ap (◌∷◌ p) (c ∙ ap (λ x. x.1.tx_queue) popped) ∙ sym f,
        )
]

-- Serving the connections sends no packet into the tunnel by itself.
module _ (tcp : Smoltcp) where
  open tcp use {Sockets, poll, recv_slice}

  pass_on-tunnelled : (t : Turn) (h : ℕ) (r : Option Bytes) → tunnelled (pass_on t h r) ≡ []
  unfolding pass_on
  pass_on-tunnelled t h none = refl
  pass_on-tunnelled t h (some []) = refl
  pass_on-tunnelled t h (some (b ∷ bs)) = elim (Bool-cases (t.room h)) [
    | inl e ↦ rw e refl
    | inr e ↦ rw e refl
  ]

  read_socket-tunnelled :
      (t : Turn) (h : ℕ) (s : Sockets) → tunnelled (read_socket tcp t h s).1 ≡ []
  unfolding read_socket
  read_socket-tunnelled t h s = elim (Bool-cases (tcp.can_recv s h)) [
    | inl e ↦ rw e (pass_on-tunnelled t h (recv_slice 4096 s h).1)
    | inr e ↦ rw e refl
  ]

  write_socket-tunnelled :
      (t : Turn) (h : ℕ) (s : Sockets) → tunnelled (write_socket tcp t h s).1 ≡ []
  unfolding write_socket
  write_socket-tunnelled t h s = ground arith

  transfer-tunnelled : (t : Turn) (h : ℕ) (s : Sockets) → tunnelled (transfer tcp t h s).1 ≡ []
  unfolding transfer
  transfer-tunnelled t h s = elim (Bool-cases (tcp.is_active s h)) [
    | inr e ↦ rw e refl
    | inl e ↦ rw e (
        silent-append (read_socket tcp t h s).1 (write_socket tcp t h (read_socket tcp t h s).0).1
          (read_socket-tunnelled t h s) (write_socket-tunnelled t h (read_socket tcp t h s).0))
  ]

  accept_on-tunnelled :
      (t : Turn) (s : Sockets) (h port : ℕ) (active : List ℕ)
      → tunnelled (accept_on tcp t s h port active).1 ≡ []
  unfolding accept_on
  accept_on-tunnelled t s h port active = ground arith

  transfer_all-tunnelled :
      (t : Turn) (hs : List ℕ) (s : Sockets) → tunnelled (transfer_all tcp t hs s).1 ≡ []
  unfolding transfer_all
  transfer_all-tunnelled t [] s = refl
  transfer_all-tunnelled t (h ∷ hs) s =
      let a = transfer tcp t h s in
      silent-append a.1 (transfer_all tcp t hs a.0).1 (transfer-tunnelled t h s)
        (transfer_all-tunnelled t hs a.0)

  serve-tunnelled :
      (l : Listeners) (t : Turn) (s : Sockets) (active : List ℕ)
      → tunnelled (serve tcp l t s active).1 ≡ []
  unfolding serve
  serve-tunnelled l t s active =
      let a = accept_on tcp t s l.control_handle l.control_port active in
      let b = accept_on tcp t s l.imaging_handle l.imaging_port a.0 in
      silent-append a.1 (b.1 ++ (transfer_all tcp t b.0 s).1)
        (accept_on-tunnelled t s l.control_handle l.control_port active)
        (silent-append b.1 (transfer_all tcp t b.0 s).1
          (accept_on-tunnelled t s l.imaging_handle l.imaging_port a.0)
          (transfer_all-tunnelled t b.0 s))

  abbrev served : Listeners → Turn → Bool → Sockets → List ℕ → Sockets × List Effect × List ℕ
  served l t changed s active = if changed then serve tcp l t s active else (s, [], active)

  served-tunnelled :
      (l : Listeners) (t : Turn) (changed : Bool) (s : Sockets) (active : List ℕ)
      → tunnelled (served l t changed s active).1 ≡ []
  served-tunnelled l t true s active = serve-tunnelled l t s active
  served-tunnelled l t false s active = refl

  module _ (l : Listeners) where
    -- What smoltcp takes in, and what it sends out, during the turns.
    abbrev pub taken_in : List Turn → Stack tcp → List Bytes
    taken_in [] st = []
    taken_in (t ∷ ts) st =
        let d = inject_opt t.packet st.device in
        (run_calls (poll t.now st.sockets d.rx_queue).1 d).1 ++ taken_in ts (turn tcp l t st).0

    abbrev pub sent_out : List Turn → Stack tcp → List Bytes
    sent_out [] st = []
    sent_out (t ∷ ts) st =
        transmitted (poll t.now st.sockets (inject_opt t.packet st.device).rx_queue).1
        ++ sent_out ts (turn tcp l t st).0

    abbrev pub injected : List Turn → List Bytes
    injected [] = []
    injected (t ∷ ts) = opt_to_list t.packet ++ injected ts

    inject_opt-rx :
        (p : Option Bytes) (d : VirtualDevice)
        → (inject_opt p d).rx_queue ≡ d.rx_queue ++ opt_to_list p
    unfolding inject
    inject_opt-rx none d = sym (append-nil d.rx_queue)
    inject_opt-rx (some p) d = refl

    inject_opt-tx : (p : Option Bytes) (d : VirtualDevice) → (inject_opt p d).tx_queue ≡ d.tx_queue
    unfolding inject
    inject_opt-tx none d = refl
    inject_opt-tx (some p) d = refl

    turn_lem :
        (t : Turn) (st : Stack tcp)
        → ((i : ℕ) → t.egress_room i ≡ true)
        → st.device.tx_queue ≡ []
        → let d = inject_opt t.packet st.device in
          let calls = (poll t.now st.sockets d.rx_queue).1 in
          let (st', es) = turn tcp l t st in
          ((run_calls calls d).1 ++ st'.device.rx_queue
            ≡ st.device.rx_queue ++ opt_to_list t.packet)
          × (st'.device.tx_queue ≡ [])
          × (tunnelled es ≡ transmitted calls)
    unfolding turn Drained
    turn_lem t st room empty =
        let d = inject_opt t.packet st.device in
        let p = poll t.now st.sockets d.rx_queue in
        let d' = (run_calls p.1 d).0 in
        let (a, b, c) = drain_all-Drained t.egress_room room (length d'.tx_queue) 0 d' refl in
        (
          ap (◌++◌ (run_calls p.1 d).1) a ∙ run_calls-rx p.1 d ∙ inject_opt-rx t.packet st.device,
          b,
          tunnelled-append (served l t p.2 p.0 st.active).1 _
              ∙ ap (λ x. x ++ tunnelled (drain_all (length d'.tx_queue) t.egress_room 0 d').1)
                  (served-tunnelled l t p.2 p.0 st.active)
              ∙ c
              ∙ run_calls-tx p.1 d
              ∙ ap (λ x. x ++ transmitted p.1) (inject_opt-tx t.packet st.device ∙ empty),
        )

    -- Packets keep their order and none is lost, duplicated or made up: over any turns from an empty
    -- transmit queue in which the channel to the tunnel takes every packet, what smoltcp takes in,
    -- followed by what still waits for it, is what waited at the start followed by what the tunnel
    -- has injected; the tunnel gets exactly what smoltcp sends out; and the transmit queue is empty
    -- again.
    pub run_stack-packets :
        (ts : List Turn) (st : Stack tcp)
        → All (λ t. (i : ℕ) → t.egress_room i ≡ true) ts
        → st.device.tx_queue ≡ []
        → let (st', es) = run_stack tcp l ts st in
          (taken_in ts st ++ st'.device.rx_queue ≡ st.device.rx_queue ++ injected ts)
          × (st'.device.tx_queue ≡ [])
          × (tunnelled es ≡ sent_out ts st)
    unfolding run_stack
    run_stack-packets [] st room empty = (sym (append-nil st.device.rx_queue), empty, refl)
    run_stack-packets (t ∷ ts) st (now, later) empty =
        let d = inject_opt t.packet st.device in
        let p = poll t.now st.sockets d.rx_queue in
        let taken = (run_calls p.1 d).1 in
        let a = turn tcp l t st in
        let (x, y, z) = turn_lem t st now empty in
        let (x', y', z') = run_stack-packets ts a.0 later y in
        let rx = (run_stack tcp l ts a.0).0.device.rx_queue in
        (
          append_assoc taken (taken_in ts a.0) rx
              ∙ ap (◌++◌ taken) x'
              ∙ sym (append_assoc taken a.0.device.rx_queue (injected ts))
              ∙ ap (λ q. q ++ injected ts) x
              ∙ append_assoc st.device.rx_queue (opt_to_list t.packet) (injected ts),
          y',
          tunnelled-append a.1 (run_stack tcp l ts a.0).1 ∙ ap₂ ◌++◌ z z',
        )
