-- ===== src/Wireguard/Netstack/Connections.antt =====
-- src/wireguard/netstack.rs: which connections the stack holds, and when it announces one.
use seestar_proxy.Base.{
  ℕ, zero, suc, ◌+◌, ◌≡◌, ◌≢◌, refl, sym, ap, ◌∙◌, ◌⊎◌, inl, inr, Bool, true, false, not, ◌&&◌,
  ◌||◌, Bool-cases, Option-cases, Option, none, some, List, [], ◌∷◌, ◌++◌, arith, ◌==◌, ==_iff,
  if◌then◌else◌, length,
}
use seestar_proxy.Base.Text.{Bytes}
use seestar_proxy.Wireguard.Netstack.{
  VirtualDevice, inject_opt, run_calls, Smoltcp, Turn, Listeners, Effect, accepted, refused,
  to_proxy, dropped, to_socket, to_tunnel, lost, contains_key, pass_on, drain, drain_all, Stack,
  accept_on, read_socket, write_socket, transfer, transfer_all, serve, turn,
}

contains_key-append :
    (h : ℕ) (ks ls : List ℕ) → contains_key h (ks ++ ls) ≡ (contains_key h ks || contains_key h ls)
contains_key-append h [] ls = refl
contains_key-append h (k ∷ ks) ls = ap (◌||◌ (h == k)) (contains_key-append h ks ls) ∙ ground arith

-- How many connections of a handle are announced, taken by the proxy or not.
abbrev pub announced : ℕ → List Effect → ℕ
announced h [] = 0
announced h (accepted k _ ∷ es) = (if h == k then 1 else 0) + announced h es
announced h (refused k _ ∷ es) = (if h == k then 1 else 0) + announced h es
announced h (_ ∷ es) = announced h es

announced-append :
    (h : ℕ) (es fs : List Effect) → announced h (es ++ fs) ≡ announced h es + announced h fs
announced-append h [] fs = omega arith
announced-append h (accepted k p ∷ es) fs = omega (arith, announced-append h es fs)
announced-append h (refused k p ∷ es) fs = omega (arith, announced-append h es fs)
announced-append h (to_proxy _ _ ∷ es) fs = announced-append h es fs
announced-append h (dropped _ _ ∷ es) fs = announced-append h es fs
announced-append h (to_socket _ _ _ ∷ es) fs = announced-append h es fs
announced-append h (to_tunnel _ ∷ es) fs = announced-append h es fs
announced-append h (lost _ ∷ es) fs = announced-append h es fs

drain_all-announced :
    (h n : ℕ) (room : ℕ → Bool) (i : ℕ) (d : VirtualDevice)
    → announced h (drain_all n room i d).1 ≡ 0
unfolding drain_all
drain_all-announced h zero room i d = refl
drain_all-announced h (suc n) room i d = elim (Option-cases (drain d).0) [
  | inl e ↦ rw (drain_all, e) refl
  | inr (packet, e) ↦ elim (Bool-cases (room i)) [
    | inl f ↦ rw (drain_all, e, f) (drain_all-announced h n room (suc i) (drain d).1)
    | inr f ↦ rw (drain_all, e, f) (drain_all-announced h n room (suc i) (drain d).1)
  ]
]

module _ (tcp : Smoltcp) where
  open tcp use {Sockets, poll, is_active, recv_slice, send_slice}

  -- What the code relies on: moving data does not open or close a socket.
  pub record Steady : Type 0 where
    pub recv-is_active :
        (n : ℕ) (s : Sockets) (h k : ℕ) → is_active (recv_slice n s k).0 h ≡ is_active s h
    pub send-is_active :
        (bs : Bytes) (s : Sockets) (h k : ℕ) → is_active (send_slice bs s k).0 h ≡ is_active s h

  pass_on-announced : (t : Turn) (h k : ℕ) (r : Option Bytes) → announced h (pass_on t k r) ≡ 0
  unfolding pass_on
  pass_on-announced t h k none = refl
  pass_on-announced t h k (some []) = refl
  pass_on-announced t h k (some (b ∷ bs)) = elim (Bool-cases (t.room k)) [
    | inl e ↦ rw e refl
    | inr e ↦ rw e refl
  ]

  module _ (ok : Steady) (h : ℕ) where
    open ok use {recv-is_active, send-is_active}

    -- Nothing is announced, and the socket stays as it is.
    Quiet : Sockets → Sockets × List Effect → Type 0
    Quiet s (s', es) = (is_active s' h ≡ is_active s h) × (announced h es ≡ 0)

    read_socket-Quiet : (t : Turn) (k : ℕ) (s : Sockets) → Quiet s (read_socket tcp t k s)
    unfolding Quiet read_socket
    read_socket-Quiet t k s = elim (Bool-cases (tcp.can_recv s k)) [
      | inr e ↦ rw e (refl, refl)
      | inl e ↦ rw e (recv-is_active 4096 s h k, pass_on-announced t h k (recv_slice 4096 s k).1)
    ]

    write_socket-Quiet : (t : Turn) (k : ℕ) (s : Sockets) → Quiet s (write_socket tcp t k s)
    unfolding Quiet write_socket
    write_socket-Quiet t k s = elim (Bool-cases (tcp.can_send s k)) [
      | inr e ↦ rw e (refl, refl)
      | inl e ↦ elim (Option-cases (t.message k)) [
        | inl f ↦ rw (e, f) (refl, refl)
        | inr (msg, f) ↦ rw (e, f) (send-is_active msg s h k, refl)
      ]
    ]

    transfer-Quiet :
        (t : Turn) (k : ℕ) (s : Sockets)
        → let (s', es, stays) = transfer tcp t k s in Quiet s (s', es) × (stays ≡ is_active s k)
    unfolding transfer Quiet
    transfer-Quiet t k s = elim (Bool-cases (is_active s k)) [
      | inr e ↦ rw e ((refl, refl), refl)
      | inl e ↦
          let r = read_socket tcp t k s in
          let (a, b) = read_socket-Quiet t k s in
          let (c, d) = write_socket-Quiet t k r.0 in
          rw e (
            (c ∙ a, omega (arith, b, d, announced-append h r.1 (write_socket tcp t k r.0).1)),
            refl,
          )
    ]

    contains_key-kept :
        (k : ℕ) (kept : List ℕ) (stays held : Bool) (s : Sockets)
        → stays ≡ is_active s k
        → contains_key h kept ≡ (held && is_active s h)
        → contains_key h (if stays then k ∷ kept else kept) ≡ ((h == k || held) && is_active s h)
    contains_key-kept k kept stays held s p q = elim (Bool-cases (h == k)) [
      | inl e ↦ elim (Bool-cases stays) [
        | inl f ↦ rw (f, e) (sym f ∙ p ∙ ap (is_active s) (sym ((==_iff h k).0 e)))
        | inr f ↦
            let off : is_active s h ≡ false = ap (is_active s) ((==_iff h k).0 e) ∙ sym p ∙ f in
            rw (f, e, off) (q ∙ rw off (ground arith))
      ]
      | inr e ↦ elim (Bool-cases stays) [ inl f ↦ rw (f, e) q | inr f ↦ rw (f, e) q ]
    ]

    transfer_all-Quiet :
        (t : Turn) (ks : List ℕ) (s : Sockets)
        → let (s', es, kept) = transfer_all tcp t ks s in
          Quiet s (s', es) × (contains_key h kept ≡ (contains_key h ks && is_active s h))
    unfolding transfer_all Quiet
    transfer_all-Quiet t [] s = ((refl, refl), refl)
    transfer_all-Quiet t (k ∷ ks) s =
        let a = transfer tcp t k s in
        let b = transfer_all tcp t ks a.0 in
        let ((p, q), r) = transfer-Quiet t k s in
        let ((p', q'), r') = transfer_all-Quiet t ks a.0 in
        (
          (p' ∙ p, omega (arith, q, q', announced-append h a.1 b.1)),
          contains_key-kept k b.2 a.2 (contains_key h ks) s r
              (r' ∙ ap (λ x. contains_key h ks && x) p),
        )

    -- A listen socket that is active has a connection afterwards.
    accept_on-contains_key :
        (t : Turn) (s : Sockets) (k port : ℕ) (active : List ℕ)
        → contains_key h (accept_on tcp t s k port active).0
          ≡ (contains_key h active || (h == k && is_active s k))
    unfolding accept_on
    accept_on-contains_key t s k port active = elim (Bool-cases (is_active s k)) [
      | inr e ↦ rw e (or_and_false (contains_key h active) (h == k))
      | inl e ↦ elim (Bool-cases (contains_key k active)) [
        | inr f ↦
            rw (e, f)
              (contains_key-append h active (k ∷ []) ∙ same (contains_key h active) (h == k))
        | inl f ↦
            rw (e, f)
              (elim (Bool-cases (h == k)) [
                | inr g ↦ rw g (or_and_false (contains_key h active) true)
                | inl g ↦
                    let held : contains_key h active ≡ true =
                      ap (λ x. contains_key x active) ((==_iff h k).0 g) ∙ f in
                    rw held refl
              ])
      ]
    ]
      where
        or_and_false : (a b : Bool) → a ≡ (a || (b && false))
        or_and_false true b = refl
        or_and_false false true = refl
        or_and_false false false = refl

        same : (a b : Bool) → (a || (b || false)) ≡ (a || (b && true))
        same true b = refl
        same false true = refl
        same false false = refl

    accept_on-announced :
        (t : Turn) (s : Sockets) (k port : ℕ) (active : List ℕ)
        → announced h (accept_on tcp t s k port active).1
          ≡ (if h == k && (is_active s k && not (contains_key k active)) then 1 else 0)
    unfolding accept_on
    accept_on-announced t s k port active =
        go (h == k) refl (is_active s k && not (contains_key k active)) refl (t.conn_room port) refl
      where
        go :
            (a : Bool)
            → (h == k) ≡ a
            → (b : Bool) → (is_active s k && not (contains_key k active)) ≡ b
            → (c : Bool) → t.conn_room port ≡ c
            → announced h (accept_on tcp t s k port active).1
              ≡ (if h == k && (is_active s k && not (contains_key k active)) then 1 else 0)
        go true e true f true g = rw (f, g, e) refl
        go true e true f false g = rw (f, g, e) refl
        go true e false f c g = rw (f, e) refl
        go false e true f true g = rw (f, g, e) refl
        go false e true f false g = rw (f, g, e) refl
        go false e false f c g = rw (f, e) refl

    module _ (l : Listeners) where
      open l use {control_handle, imaging_handle, control_port, imaging_port}

      -- What one turn does for a listen socket.
      abbrev Serves : Sockets → List ℕ → Sockets × List Effect × List ℕ → Type 0
      Serves s active (s', es, kept) =
          (contains_key h kept ≡ is_active s' h)
          × (announced h es ≡ (if is_active s h && not (contains_key h active) then 1 else 0))

      serve-Serves :
          (t : Turn) (s : Sockets) (active : List ℕ)
          → control_handle ≢ imaging_handle
          → ((h ≡ control_handle) ⊎ (h ≡ imaging_handle))
          → Serves s active (serve tcp l t s active)
      unfolding serve Quiet
      serve-Serves t s active apart own = (
        kept ∙ held ∙ sym steady,
        omega
            (arith, announced-append h a.1 (b.1 ++ c.1), announced-append h b.1 c.1, quiet, count),
      )
        where
          a : List ℕ × List Effect
          a = accept_on tcp t s control_handle control_port active

          b : List ℕ × List Effect
          b = accept_on tcp t s imaging_handle imaging_port a.0

          c : Sockets × List Effect × List ℕ
          c = transfer_all tcp t b.0 s

          steady : is_active c.0 h ≡ is_active s h
          steady = (transfer_all-Quiet t b.0 s).0.0

          quiet : announced h c.1 ≡ 0
          quiet = (transfer_all-Quiet t b.0 s).0.1

          kept : contains_key h c.2 ≡ (contains_key h b.0 && is_active s h)
          kept = (transfer_all-Quiet t b.0 s).1

          held : (contains_key h b.0 && is_active s h) ≡ is_active s h
          held =
              rw
                (
                  accept_on-contains_key t s imaging_handle imaging_port a.0,
                  accept_on-contains_key t s control_handle control_port active,
                )
                (either own)
            where
              in_first : (x y w : Bool) → (((x || (true && w)) || y) && w) ≡ w
              in_first x y w = ground arith

              in_second : (x w : Bool) → ((x || (true && w)) && w) ≡ w
              in_second x w = ground arith

              either :
                  ((h ≡ control_handle) ⊎ (h ≡ imaging_handle))
                  → ((((contains_key h active
                            || (h == control_handle && is_active s control_handle))
                          || (h == imaging_handle && is_active s imaging_handle))
                        && is_active s h)
                      ≡ is_active s h)
              either (inl e) =
                  rw ((==_iff h control_handle).1 e, ap (is_active s) (sym e))
                    (in_first (contains_key h active)
                      (h == imaging_handle && is_active s imaging_handle) (is_active s h))
              either (inr e) =
                  rw ((==_iff h imaging_handle).1 e, ap (is_active s) (sym e))
                    (in_second
                      (contains_key h active || (h == control_handle && is_active s control_handle))
                      (is_active s h))

          count :
              announced h a.1 + announced h b.1
              ≡ (if is_active s h && not (contains_key h active) then 1 else 0)
          count =
              rw
                (
                  accept_on-announced t s imaging_handle imaging_port a.0,
                  accept_on-announced t s control_handle control_port active,
                )
                (elim own [
                  | inl e ↦
                      let other : (h == imaging_handle) ≡ false = ground arith in
                      rw
                        (
                          other,
                          (==_iff h control_handle).1 e,
                          ap (is_active s) (sym e),
                          ap (λ k. contains_key k active) (sym e),
                        )
                        (omega arith)
                  | inr e ↦
                      let other : (h == control_handle) ≡ false = ground arith in
                      let same : contains_key imaging_handle a.0 ≡ contains_key h active =
                        ap (λ k. contains_key k a.0) (sym e)
                        ∙ accept_on-contains_key t s control_handle control_port active
                        ∙ rw other (ground arith) in
                      rw (other, (==_iff h imaging_handle).1 e, ap (is_active s) (sym e), same)
                        (omega arith)
                ])

      -- The connections that the stack holds are those of its active sockets, and each is announced
      -- once: after a turn in which smoltcp reports a change, a listen socket has a connection
      -- exactly if it is active; the turn announces one connection of the socket if the socket was
      -- active after the poll without a connection, and none otherwise. The two sockets have
      -- different handles, and moving data opens and closes none.
      pub turn-Serves :
          (t : Turn) (st : Stack tcp)
          → control_handle ≢ imaging_handle
          → ((h ≡ control_handle) ⊎ (h ≡ imaging_handle))
          → (poll t.now st.sockets (inject_opt t.packet st.device).rx_queue).2 ≡ true
          → let (st', es) = turn tcp l t st in
            let s = (poll t.now st.sockets (inject_opt t.packet st.device).rx_queue).0 in
            (contains_key h st'.active ≡ is_active st'.sockets h)
            × (announced h es ≡ (if is_active s h && not (contains_key h st.active) then 1 else 0))
      unfolding turn
      turn-Serves t st apart own changed =
          let d = inject_opt t.packet st.device in
          let p = poll t.now st.sockets d.rx_queue in
          let d' = (run_calls p.1 d).0 in
          let (a, b) = serve-Serves t p.0 st.active apart own in
          rw changed (
            a,
            announced-append h (serve tcp l t p.0 st.active).1 _
                ∙ omega (arith, b, drain_all-announced h (length d'.tx_queue) t.egress_room 0 d'),
          )
