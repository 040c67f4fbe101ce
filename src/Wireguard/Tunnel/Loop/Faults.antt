-- ===== src/Wireguard/Tunnel/Loop/Faults.antt =====
-- src/wireguard/mod.rs: the packet that ends the packet loop.
use seestar_proxy.Base.{
  ℕ, suc, ◌-◌, ◌<◌, ◌≡◌, refl, sym, ◌∙◌, inl, inr, Bool, Bool-cases, true, false, ltb, some, List,
  ◌∷◌, arith, length, drop,
}
use seestar_proxy.Base.Text.{Bytes}
use seestar_proxy.Wireguard.Packets.{panicked, header_length, port}
use seestar_proxy.Wireguard.Discovery.{parse_discovery_request, handle_discovery}
use seestar_proxy.Wireguard.Discovery.Faults.{IsDiscovery, parse_discovery_request_lem}
use seestar_proxy.Wireguard.Tunnel.{
  write_to_tunnel_v4, process_tunn_result, Env, intercept, handle_decrypted_packet, reply_to,
  receive_first,
}
use seestar_proxy.Wireguard.Tunnel.Interceptors.{handle_dns_query_to}
use seestar_proxy.Wireguard.Tunnel.Loop.{
  Boringtun, receive_active, Event, received, State, handle_event, packet_loop,
}

parse_discovery_request-panicked :
    (packet : Bytes)
    → IsDiscovery packet
    → port 4 (drop (header_length packet) packet) < 8
    → parse_discovery_request packet ≡ panicked
parse_discovery_request-panicked packet d short =
    parse_discovery_request_lem packet d
    ∙ rw
        (
          past (port 4 (drop (header_length packet) packet)) short,
          below (port 4 (drop (header_length packet) packet)) short,
        )
        refl
  where
    past : (n : ℕ) → n < 8 → ltb (length packet - header_length packet) n ≡ false
    past n h = ground (arith, d.whole)

    below : (n : ℕ) → n < 8 → ltb n 8 ≡ true
    below n h = ground arith

intercept-panicked :
    (env : Env) (packet : Bytes)
    → IsDiscovery packet
    → port 4 (drop (header_length packet) packet) < 8
    → intercept env packet ≡ panicked
unfolding intercept handle_discovery
intercept-panicked env packet d short =
    elim (handle_dns_query_to env.to_lowercase packet env.upstream_ip) [
      | inl e ↦
          rw (intercept, e, handle_discovery, parse_discovery_request-panicked packet d short) refl
      | inr (_, e) ↦ absurd (omega (arith, sym e ∙ d.to_port))
    ]

module _ (wg : Boringtun) where
  open wg use {Tunn, decapsulate}

  -- One datagram ends the packet loop, and with it the tunnel: if the tunnel decrypts it to a UDP packet
  -- to the discovery port, long enough for its headers, whose UDP length field is below 8, the loop
  -- panics, in any state, with or without a session, and nothing that comes after it is handled.
  pub packet_loop-panics :
      (Addr : Type 0) (fuel : Tunn → ℕ) (env : Env) (st : State wg Addr) (src : Addr)
      (bytes packet : Bytes) (room : Bool) (n : ℕ) (es : List (Event Addr))
      → fuel st.tunn ≡ suc n
      → (decapsulate st.tunn bytes).1 ≡ write_to_tunnel_v4 packet
      → IsDiscovery packet
      → port 4 (drop (header_length packet) packet) < 8
      → packet_loop wg Addr fuel env (received src bytes room ∷ es) st ≡ some panicked
  unfolding packet_loop receive_active receive_first process_tunn_result handle_decrypted_packet
  packet_loop-panics Addr fuel env st src bytes packet room n es f carried d short =
      let e = intercept-panicked env packet d short in
      elim (Bool-cases st.session_active) [
        | inl a ↦
            rw
              (
                packet_loop, handle_event, a, f, receive_active, carried, process_tunn_result,
                reply_to, handle_decrypted_packet, e,
              )
              refl
        | inr a ↦
            rw
              (
                packet_loop, handle_event, a, receive_first, carried, process_tunn_result, reply_to,
                handle_decrypted_packet, e,
              )
              refl
      ]
