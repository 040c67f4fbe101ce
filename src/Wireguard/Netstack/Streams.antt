-- ===== src/Wireguard/Netstack/Streams.antt =====
-- src/wireguard/netstack.rs: the bytes that a tunnel client sends are those that the proxy gets.
use seestar_proxy.Base.{
  zero, suc, ℕ, ◌≡◌, ◌≢◌, refl, sym, ap, ◌∙◌, Bool, true, Bool-cases, Option-cases, inl, inr,
  Option, none, some, List, [], ◌∷◌, ◌++◌, append-nil, append_assoc, arith, ◌==◌, ==_iff,
  if◌then◌else◌, unwrap_or, All, length,
}
use seestar_proxy.Base.Text.{Bytes}
use seestar_proxy.Wireguard.Netstack.{
  VirtualDevice, run_calls, Smoltcp, Turn, Listeners, Effect, accepted, refused, to_proxy, dropped,
  to_socket, to_tunnel, lost, drain, drain_all, Stack, accept_on, pass_on, read_socket,
  write_socket, transfer, transfer_all, serve, inject_opt, turn, run_stack,
}

-- What the proxy gets of the connection of a handle.
abbrev pub delivered : ℕ → List Effect → Bytes
delivered h [] = []
delivered h (to_proxy k bs ∷ es) = (if h == k then bs else []) ++ delivered h es
delivered h (_ ∷ es) = delivered h es

delivered-append :
    (h : ℕ) (es fs : List Effect) → delivered h (es ++ fs) ≡ delivered h es ++ delivered h fs
delivered-append h [] fs = refl
delivered-append h (to_proxy k bs ∷ es) fs =
    ap (◌++◌ (if h == k then bs else [])) (delivered-append h es fs)
    ∙ sym (append_assoc (if h == k then bs else []) (delivered h es) (delivered h fs))
delivered-append h (accepted _ _ ∷ es) fs = delivered-append h es fs
delivered-append h (refused _ _ ∷ es) fs = delivered-append h es fs
delivered-append h (dropped _ _ ∷ es) fs = delivered-append h es fs
delivered-append h (to_socket _ _ _ ∷ es) fs = delivered-append h es fs
delivered-append h (to_tunnel _ ∷ es) fs = delivered-append h es fs
delivered-append h (lost _ ∷ es) fs = delivered-append h es fs

pass_on-delivered :
    (t : Turn) (h k : ℕ) (r : Option Bytes)
    → t.room h ≡ true
    → delivered h (pass_on t k r) ≡ (if h == k then unwrap_or r [] else [])
unfolding pass_on
pass_on-delivered t h k none room = elim (Bool-cases (h == k)) [
  | inl e ↦ rw e refl
  | inr e ↦ rw e refl
]
pass_on-delivered t h k (some []) room = elim (Bool-cases (h == k)) [
  | inl e ↦ rw e refl
  | inr e ↦ rw e refl
]
pass_on-delivered t h k (some (b ∷ bs)) room = elim (Bool-cases (h == k)) [
  | inl e ↦
      let same : h ≡ k = (==_iff h k).0 e in
      rw (sym (ap t.room same) ∙ room, e) (append-nil (b ∷ bs))
  | inr e ↦ elim (Bool-cases (t.room k)) [ inl f ↦ rw (f, e) refl | inr f ↦ rw (f, e) refl ]
]

module _ (tcp : Smoltcp) where
  open tcp use {Sockets, poll, recv_slice, send_slice}

  -- What the code relies on: a socket holds the bytes that have arrived for it, `poll` adds those
  -- that `arrived` says, and `recv_slice` takes bytes off the front of its own socket only.
  pub record Streaming (arrived : ℕ → Sockets → List Bytes → ℕ → Bytes) : Type 0 where
    pub rx : Sockets → ℕ → Bytes
    pub poll-rx :
        (now : ℕ) (s : Sockets) (q : List Bytes) (h : ℕ)
        → rx (poll now s q).0 h ≡ rx s h ++ arrived now s q h
    pub recv-rx :
        (n : ℕ) (s : Sockets) (h : ℕ)
        → unwrap_or (recv_slice n s h).1 [] ++ rx (recv_slice n s h).0 h ≡ rx s h
    pub recv-other : (n : ℕ) (s : Sockets) (h k : ℕ) → h ≢ k → rx (recv_slice n s k).0 h ≡ rx s h
    pub send-rx : (bs : Bytes) (s : Sockets) (h k : ℕ) → rx (send_slice bs s k).0 h ≡ rx s h

  -- Whatever arrives for a handle during the turns.
  abbrev pub arrivals :
      (l : Listeners) → (ℕ → Sockets → List Bytes → ℕ → Bytes) → ℕ → List Turn → Stack tcp → Bytes
  arrivals l arrived h [] st = []
  arrivals l arrived h (t ∷ ts) st =
      arrived t.now st.sockets (inject_opt t.packet st.device).rx_queue h
      ++ arrivals l arrived h ts (turn tcp l t st).0

  module _ {arrived : ℕ → Sockets → List Bytes → ℕ → Bytes} (ok : Streaming arrived) (h : ℕ) where
    open ok use {rx, poll-rx, recv-rx, recv-other, send-rx}

    -- The bytes given to the proxy, and those still in the socket.
    Kept : Sockets → Sockets × List Effect → Type 0
    Kept s (s', es) = delivered h es ++ rx s' h ≡ rx s h

    trans-Kept :
        (s s' s'' : Sockets) (es fs : List Effect)
        → Kept s (s', es)
        → Kept s' (s'', fs)
        → Kept s (s'', es ++ fs)
    unfolding Kept
    trans-Kept s s' s'' es fs p q =
        ap (λ x. x ++ rx s'' h) (delivered-append h es fs)
        ∙ append_assoc (delivered h es) (delivered h fs) (rx s'' h)
        ∙ ap (◌++◌ (delivered h es)) q
        ∙ p

    read_socket-Kept :
        (t : Turn) (k : ℕ) (s : Sockets) → t.room h ≡ true → Kept s (read_socket tcp t k s)
    unfolding Kept read_socket
    read_socket-Kept t k s room = elim (Bool-cases (tcp.can_recv s k)) [
      | inr e ↦ rw e refl
      | inl e ↦
          rw (e, pass_on-delivered t h k (recv_slice 4096 s k).1 room)
            (elim (Bool-cases (h == k)) [
              | inl f ↦ rw (f, (==_iff h k).0 f) (recv-rx 4096 s k)
              | inr f ↦ rw f (recv-other 4096 s h k (λ g. ground (arith, (==_iff h k).1 g)))
            ])
    ]

    write_socket-Kept : (t : Turn) (k : ℕ) (s : Sockets) → Kept s (write_socket tcp t k s)
    unfolding Kept write_socket
    write_socket-Kept t k s = elim (Bool-cases (tcp.can_send s k)) [
      | inr e ↦ rw e refl
      | inl e ↦ elim (Option-cases (t.message k)) [
        | inl f ↦ rw (e, f) refl
        | inr (msg, f) ↦ rw (e, f) (send-rx msg s h k)
      ]
    ]

    transfer-Kept :
        (t : Turn) (k : ℕ) (s : Sockets)
        → t.room h ≡ true
        → let (s', es, stays) = transfer tcp t k s in Kept s (s', es)
    unfolding transfer Kept
    transfer-Kept t k s room = elim (Bool-cases (tcp.is_active s k)) [
      | inr e ↦ rw e refl
      | inl e ↦ rw e (
          let r = read_socket tcp t k s in
          let w = write_socket tcp t k r.0 in
          trans-Kept s r.0 w.0 r.1 w.1 (read_socket-Kept t k s room) (write_socket-Kept t k r.0))
    ]

    transfer_all-Kept :
        (t : Turn) (ks : List ℕ) (s : Sockets)
        → t.room h ≡ true
        → let (s', es, kept) = transfer_all tcp t ks s in Kept s (s', es)
    unfolding transfer_all Kept
    transfer_all-Kept t [] s room = refl
    transfer_all-Kept t (k ∷ ks) s room =
        let a = transfer tcp t k s in
        let b = transfer_all tcp t ks a.0 in
        trans-Kept s a.0 b.0 a.1 b.1 (transfer-Kept t k s room) (transfer_all-Kept t ks a.0 room)

    accept_on-Kept :
        (t : Turn) (s : Sockets) (k port : ℕ) (active : List ℕ)
        → Kept s (s, (accept_on tcp t s k port active).1)
    unfolding Kept accept_on
    accept_on-Kept t s k port active = ground arith

    drain_all-Kept :
        (n : ℕ) (room : ℕ → Bool) (i : ℕ) (d : VirtualDevice) (s : Sockets)
        → Kept s (s, (drain_all n room i d).1)
    unfolding Kept drain_all
    drain_all-Kept zero room i d s = refl
    drain_all-Kept (suc n) room i d s = elim (Option-cases (drain d).0) [
      | inl e ↦ rw (drain_all, e) refl
      | inr (packet, e) ↦ elim (Bool-cases (room i)) [
        | inl f ↦ rw (drain_all, e, f) (drain_all-Kept n room (suc i) (drain d).1 s)
        | inr f ↦ rw (drain_all, e, f) (drain_all-Kept n room (suc i) (drain d).1 s)
      ]
    ]

    module _ (l : Listeners) where
      serve-Kept :
          (t : Turn) (s : Sockets) (active : List ℕ)
          → t.room h ≡ true
          → let (s', es, kept) = serve tcp l t s active in Kept s (s', es)
      unfolding serve
      serve-Kept t s active room =
          let a = accept_on tcp t s l.control_handle l.control_port active in
          let b = accept_on tcp t s l.imaging_handle l.imaging_port a.0 in
          let c = transfer_all tcp t b.0 s in
          trans-Kept s s c.0 a.1 (b.1 ++ c.1)
            (accept_on-Kept t s l.control_handle l.control_port active)
            (trans-Kept s s c.0 b.1 c.1 (accept_on-Kept t s l.imaging_handle l.imaging_port a.0)
              (transfer_all-Kept t b.0 s room))

      turn_lem :
          (t : Turn) (st : Stack tcp)
          → t.room h ≡ true
          → delivered h (turn tcp l t st).1 ++ rx (turn tcp l t st).0.sockets h
            ≡ rx st.sockets h ++ arrived t.now st.sockets (inject_opt t.packet st.device).rx_queue h
      unfolding turn Kept
      turn_lem t st room =
          let d = inject_opt t.packet st.device in
          let p = poll t.now st.sockets d.rx_queue in
          let d' = run_calls p.1 d in
          let g = serve tcp l t p.0 st.active in
          let fs = drain_all (length d'.0.tx_queue) t.egress_room 0 d'.0 in
          elim (Bool-cases p.2) [
            | inl e ↦ rw e (
                trans-Kept p.0 g.0 g.0 g.1 fs.1 (serve-Kept t p.0 st.active room)
                  (drain_all-Kept (length d'.0.tx_queue) t.egress_room 0 d'.0 g.0)
                ∙ poll-rx t.now st.sockets d.rx_queue h)
            | inr e ↦ rw e (
                drain_all-Kept (length d'.0.tx_queue) t.egress_room 0 d'.0 p.0
                ∙ poll-rx t.now st.sockets d.rx_queue h)
          ]

      -- The bytes of one tunnel client reach the proxy as they are: over any turns in which the
      -- channel of the connection takes what it is offered, the bytes that the proxy gets for a
      -- handle, followed by those that still wait in its socket, are the bytes that waited there at
      -- the start followed by all that have arrived since. The sockets of smoltcp are a parameter
      -- that keeps bytes in order.
      pub run_stack-delivered :
          (ts : List Turn) (st : Stack tcp)
          → All (λ t. t.room h ≡ true) ts
          → let (st', es) = run_stack tcp l ts st in
            delivered h es ++ rx st'.sockets h ≡ rx st.sockets h ++ arrivals l arrived h ts st
      unfolding run_stack
      run_stack-delivered [] st room = sym (append-nil (rx st.sockets h))
      run_stack-delivered (t ∷ ts) st (now, later) =
          let a = turn tcp l t st in
          let b = run_stack tcp l ts a.0 in
          let new = arrived t.now st.sockets (inject_opt t.packet st.device).rx_queue h in
          let rest = arrivals l arrived h ts a.0 in
          ap (λ x. x ++ rx b.0.sockets h) (delivered-append h a.1 b.1)
          ∙ append_assoc (delivered h a.1) (delivered h b.1) (rx b.0.sockets h)
          ∙ ap (◌++◌ (delivered h a.1)) (run_stack-delivered ts a.0 later)
          ∙ sym (append_assoc (delivered h a.1) (rx a.0.sockets h) rest)
          ∙ ap (λ x. x ++ rest) (turn_lem t st now)
          ∙ append_assoc (rx st.sockets h) new rest
