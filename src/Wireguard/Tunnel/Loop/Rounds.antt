-- ===== src/Wireguard/Tunnel/Loop/Rounds.antt =====
-- src/wireguard/mod.rs: the inner loop ends, and what it can end with.
use seestar_proxy.Base.{
  ℕ, zero, suc, ◌+◌, ◌<◌, ◌≤◌, ◌≡◌, ◌≢◌, refl, sym, ap, ◌∙◌, ◌⊎◌, inl, inr, Bool, true, some, List,
  [], ◌∷◌, ◌++◌, arith, drop,
}
use mathlib.Core.Option
use seestar_proxy.Base.Text.{Bytes}
use seestar_proxy.Protocol.{discovery_port}
use seestar_proxy.Wireguard.Packets.{Look, ignored, found, panicked, header_length, port}
use seestar_proxy.Wireguard.Tunnel.{
  TunnResult, done, write_to_tunnel_v6, err, write_to_network, write_to_tunnel_v4, TunnAction,
  finished, go_on, decrypted, Effect, process_tunn_result, Env, intercept, handle_decrypted_packet,
  reply_to, send_back,
}
use seestar_proxy.Wireguard.Tunnel.Interceptors.{intercept_safe}
use seestar_proxy.Wireguard.Tunnel.Loop.{Boringtun, Reply, prepend, receive_active}

TunnResult-cases :
    (room : Bool) (r : TunnResult)
    → ((process_tunn_result room r).1 ≢ go_on) ⊎ ((out : Bytes) × (r ≡ write_to_network out))
unfolding process_tunn_result
TunnResult-cases room done = inl (λ e. cc)
TunnResult-cases room write_to_tunnel_v6 = inl (λ e. cc)
TunnResult-cases room err = inl (λ e. cc)
TunnResult-cases room (write_to_network bytes) = inr (bytes, refl)
TunnResult-cases room (write_to_tunnel_v4 bytes) = inl (λ e. cc)

pub TunnAction-cases :
    (a : TunnAction) → (a ≡ finished) ⊎ ((a ≡ go_on) ⊎ ((p : Bytes) × (a ≡ decrypted p)))
TunnAction-cases finished = inl refl
TunnAction-cases go_on = inr (inl refl)
TunnAction-cases (decrypted p) = inr (inr (p, refl))

pub decrypted_inv :
    (room : Bool) (r : TunnResult) (packet : Bytes)
    → (process_tunn_result room r).1 ≡ decrypted packet
    → r ≡ write_to_tunnel_v4 packet
unfolding process_tunn_result
decrypted_inv room r packet e = ground arith

Look-cases :
    {A : Type 0} (l : Look A) → (l ≡ ignored) ⊎ (((a : A) × (l ≡ found a)) ⊎ (l ≡ panicked))
Look-cases ignored = inl refl
Look-cases (found a) = inr (inl (a, refl))
Look-cases panicked = inr (inr refl)

-- A packet to the discovery port whose UDP length field is below that of the header.
abbrev pub Malformed : Bytes → Type 0
Malformed packet =
    (port 2 (drop (header_length packet) packet) ≡ discovery_port)
    × (port 4 (drop (header_length packet) packet) < 8)

Malformed-cases :
    (packet : Bytes)
    → Malformed packet
      ⊎ ((port 2 (drop (header_length packet) packet) ≢ discovery_port)
          ⊎ (8 ≤ port 4 (drop (header_length packet) packet)))
Malformed-cases packet = omega arith

module _ (wg : Boringtun) where
  open wg use {Tunn, encapsulate, decapsulate}

  -- The tunnel after `n` calls without bytes.
  abbrev pub flushed : ℕ → Tunn → Tunn
  flushed zero t = t
  flushed (suc n) t = flushed n (decapsulate t []).0

  -- What boringtun and the protocol promise: a call without bytes may be repeated until its result is
  -- `Done`; and a message that the tunnel has answered, which is one of a handshake, is not answered
  -- a second time (an initiation has a timestamp that must grow, a response ends its handshake).
  pub record Documented : Type 0 where
    pub flush_count : Tunn → ℕ
    pub flushes : (t : Tunn) → (decapsulate (flushed (flush_count t) t) []).1 ≡ done
    pub rejects_replay :
        (t : Tunn) (b : ℕ) (bs out out' : Bytes)
        → (decapsulate t (b ∷ bs)).1 ≡ write_to_network out
        → (decapsulate (flushed 1 (decapsulate t (b ∷ bs)).0) (b ∷ bs)).1 ≢ write_to_network out'

  -- The states that calls of `decapsulate` lead to.
  pub data Reaches : Tunn → Tunn → Type 0 where
    here : (t : Tunn) → Reaches t t
    call : (t u : Tunn) (bytes : Bytes) → Reaches (decapsulate t bytes).0 u → Reaches t u

  -- The tunnel brings a malformed packet.
  abbrev pub Brings : Tunn → Type 0
  Brings t =
      (u : Tunn) × (bytes : Bytes) × (packet : Bytes) × Reaches t u
      × ((decapsulate u bytes).1 ≡ write_to_tunnel_v4 packet)
      × Malformed packet

  -- A result of what is received in the state `t`.
  abbrev pub Fate : Tunn → Reply wg → Type 0
  Fate t reply =
      ((x : Tunn × Bool × List Effect) × (reply ≡ found x)) ⊎ ((reply ≡ panicked) × Brings t)

  pub reply_to-Fate :
      (env : Env) (es : List Effect) (active : Bool) (packet bytes : Bytes) (t t' u : Tunn)
      → Reaches t u
      → (decapsulate u bytes).1 ≡ write_to_tunnel_v4 packet
      → Fate t (reply_to encapsulate decapsulate env es active (decrypted packet) t')
  unfolding handle_decrypted_packet
  reply_to-Fate env es active packet bytes t t' u r carried =
      elim (Look-cases (intercept env packet)) [
        | inl e ↦ inl ((t', active, es ++ []), rw (reply_to, handle_decrypted_packet, e) refl)
        | inr (inl (reply, e)) ↦
            let (u', more) = send_back encapsulate t' reply in
            inl ((u', active, es ++ more), rw (reply_to, handle_decrypted_packet, e) refl)
        | inr (inr e) ↦ elim (Malformed-cases packet) [
          | inl bad ↦
              inr (
                rw (reply_to, handle_decrypted_packet, e) refl,
                (u, bytes, packet, r, carried, bad),
              )
          | inr good ↦ absurd (intercept_safe env packet good e)
        ]
      ]

  Fate-prepend :
      (es : List Effect) (t t'' : Tunn) (reply : Reply wg)
      → (Brings t'' → Brings t)
      → Fate t'' reply
      → Fate t (prepend wg es reply)
  Fate-prepend es t t'' reply earlier (inl ((t', active, fs), e)) =
      inl ((t', active, es ++ fs), ap (prepend wg es) e)
  Fate-prepend es t t'' reply earlier (inr (e, brings)) = inr (ap (prepend wg es) e, earlier brings)

  module _ (env : Env) (room : Bool) where
    -- After at most `m` rounds the loop has its result.
    abbrev pub Ends : Bytes → Tunn → ℕ → Type 0
    Ends bytes t m =
        (reply : Reply wg) × Fate t reply
        × ((n : ℕ) → m ≤ n → receive_active wg n env room bytes t ≡ some reply)

    -- One round gives a result, or sends two datagrams and goes on.
    abbrev Goes : Bytes → Tunn → Type 0
    Goes bytes t =
        let t' = (decapsulate t bytes).0 in
        let t'' = (decapsulate t' []).0 in
        (es : List Effect) × (out : Bytes) × (out' : Bytes) × ((decapsulate t bytes).1
          ≡ write_to_network out)
        × ((decapsulate t' []).1 ≡ write_to_network out')
        × ((n : ℕ)
            → receive_active wg (suc n) env room bytes t
              ≡ Option.map (prepend wg es) (receive_active wg n env room bytes t''))

    at_once :
        (bytes : Bytes) (t : Tunn) (reply : Reply wg)
        → Fate t reply
        → ((n : ℕ) → receive_active wg (suc n) env room bytes t ≡ some reply)
        → Ends bytes t 1
    at_once bytes t reply fate same = (reply, fate, λ n h. go n h)
      where
        go : (n : ℕ) → 1 ≤ n → receive_active wg n env room bytes t ≡ some reply
        go zero h = absurd (omega arith)
        go (suc n) h = same n

    round : (bytes : Bytes) (t : Tunn) → Ends bytes t 1 ⊎ Goes bytes t
    unfolding receive_active
    round bytes t =
        let (t', r) = decapsulate t bytes in
        let (t'', cont) = decapsulate t' [] in
        let es = (process_tunn_result room r).0 in
        let fs = (process_tunn_result room cont).0 in
        elim (TunnAction-cases (process_tunn_result room r).1) [
          | inl e ↦ inl (
              at_once bytes t (found (t', true, es)) (inl (_, refl))
                (λ n. rw (receive_active, e) refl))
          | inr (inr (p, e)) ↦ inl (
              at_once bytes t (reply_to encapsulate decapsulate env es true (decrypted p) t')
                (reply_to-Fate env es true p bytes t t' t (here t) (decrypted_inv room r p e))
                (λ n. rw (receive_active, e) refl))
          | inr (inl e) ↦ elim (TunnAction-cases (process_tunn_result room cont).1) [
            | inl f ↦ inl (
                at_once bytes t (found (t'', true, es ++ fs)) (inl (_, refl))
                  (λ n. rw (receive_active, e, f) refl))
            | inr (inr (p, f)) ↦ inl (
                at_once bytes t
                  (reply_to encapsulate decapsulate env (es ++ fs) true (decrypted p) t'')
                  (reply_to-Fate env (es ++ fs) true p [] t t'' t' (call t t' bytes (here t'))
                    (decrypted_inv room cont p f))
                  (λ n. rw (receive_active, e, f) refl))
            | inr (inl f) ↦ elim (TunnResult-cases room r) [
              | inl stops ↦ absurd (stops e)
              | inr (out, g) ↦ elim (TunnResult-cases room cont) [
                | inl stops ↦ absurd (stops f)
                | inr (out', g') ↦
                    inr (es ++ fs, out, out', g, g', λ n. rw (receive_active, e, f) refl)
              ]
            ]
          ]
        ]

    one_more :
        (bytes : Bytes) (t : Tunn) (m : ℕ)
        → Goes bytes t
        → Ends bytes (decapsulate (decapsulate t bytes).0 []).0 m
        → Ends bytes t (suc m)
    one_more bytes t m (es, _, _, _, _, same) (reply, fate, later) = (
      prepend wg es reply,
      Fate-prepend es t (decapsulate (decapsulate t bytes).0 []).0 reply
          (λ (u, bs, packet, r, carried, bad).
            (u, bs, packet, call t u bytes (call (decapsulate t bytes).0 u [] r), carried, bad))
          fate,
      λ n h. go n h,
    )
      where
        go : (n : ℕ) → suc m ≤ n → receive_active wg n env room bytes t ≡ some (prepend wg es reply)
        go zero h = absurd (omega arith)
        go (suc n) h = same n ∙ ap (Option.map (prepend wg es)) (later n (omega arith))

    Ends-weaken : (bytes : Bytes) (t : Tunn) (m k : ℕ) → m ≤ k → Ends bytes t m → Ends bytes t k
    Ends-weaken bytes t m k h (reply, fate, same) =
        (reply, fate, λ n h'. same n (omega (arith, h, h')))

    not_done : (out : Bytes) → done ≢ write_to_network out
    not_done out e = cc

    -- Calls without bytes, until the tunnel has nothing to send.
    empty-Ends : (k : ℕ) (t : Tunn) → (decapsulate (flushed k t) []).1 ≡ done → Ends [] t (suc k)
    empty-Ends zero t e = elim (round [] t) [
      | inl ends ↦ ends
      | inr (_, out, _, f, _, _) ↦ absurd (not_done out (sym e ∙ f))
    ]
    empty-Ends (suc zero) t e = elim (round [] t) [
      | inl ends ↦ Ends-weaken [] t 1 2 (omega arith) ends
      | inr (_, _, out, _, f, _) ↦ absurd (not_done out (sym e ∙ f))
    ]
    empty-Ends (suc (suc k)) t e = elim (round [] t) [
      | inl ends ↦ Ends-weaken [] t 1 (suc (suc (suc k))) (omega arith) ends
      | inr goes ↦
          Ends-weaken [] t (suc (suc k)) (suc (suc (suc k))) (omega arith)
            (one_more [] t (suc k) goes (empty-Ends k (flushed 2 t) e))
    ]

    pub receive_active-Ends :
        (doc : Documented) (bytes : Bytes) (t : Tunn) → Ends bytes t (doc.flush_count t + 2)
    receive_active-Ends doc [] t =
        Ends-weaken [] t (suc (doc.flush_count t)) _ (omega arith)
          (empty-Ends (doc.flush_count t) t (doc.flushes t))
    receive_active-Ends doc (b ∷ bs) t = elim (round (b ∷ bs) t) [
      | inl ends ↦ Ends-weaken (b ∷ bs) t 1 _ (omega arith) ends
      | inr goes ↦
          Ends-weaken (b ∷ bs) t 2 _ (omega arith) (one_more (b ∷ bs) t 1 goes (second goes))
    ]
      where
        second : Goes (b ∷ bs) t → Ends (b ∷ bs) (flushed 1 (decapsulate t (b ∷ bs)).0) 1
        second (es, out, out', f, f', same) =
            elim (round (b ∷ bs) (flushed 1 (decapsulate t (b ∷ bs)).0)) [
              | inl ends ↦ ends
              | inr (_, again, _, g, _, _) ↦ absurd (doc.rejects_replay t b bs out again f g)
            ]

  -- The inner loop ends, if the tunnel keeps to what boringtun and the protocol document: `Done`
  -- comes after enough calls without bytes, and a message of a handshake is answered once. With two
  -- rounds more than those calls it gives a result, the same one for every such number of rounds.
  pub receive_active-ends :
      (doc : Documented) (n k : ℕ) (env : Env) (room : Bool) (bytes : Bytes) (t : Tunn)
      → doc.flush_count t + 2 ≤ n
      → doc.flush_count t + 2 ≤ k
      → (reply : Reply wg) × (receive_active wg n env room bytes t ≡ some reply)
        × (receive_active wg k env room bytes t ≡ some reply)
  receive_active-ends doc n k env room bytes t h h' =
      let (reply, _, same) = receive_active-Ends env room doc bytes t in
      (reply, same n h, same k h')
