-- ===== src/Wireguard/Tunnel/Loop/Addresses.antt =====
-- src/wireguard/mod.rs: where the packet loop sends its datagrams.
use seestar_proxy.Base.{
  ℕ, ◌≡◌, refl, sym, ap, ◌∙◌, inl, inr, Bool-cases, Option, none, some, List, [], ◌∷◌, ◌++◌, map,
  All, subst,
}
use mathlib.Core.Option
use seestar_proxy.Wireguard.Packets.{ignored, found, panicked}
use seestar_proxy.Wireguard.Tunnel.{Effect, to_peer, injected, Env, receive_first}
use seestar_proxy.Wireguard.Tunnel.Loop.{
  Boringtun, Reply, receive_active, Event, recv_error, received, egress, timer, discovery_timer,
  Sent, sent, handed_on, address_to, State, Outcome, settle, to_peer_addr, handle_event, and_then,
  later, packet_loop,
}

-- The source of the last datagram.
abbrev pub last_source : {Addr : Type 0} → Option Addr → List (Event Addr) → Option Addr
last_source peer [] = peer
last_source peer (received src bytes room ∷ es) = last_source (some src) es
last_source peer (_ ∷ es) = last_source peer es

abbrev pub GoesTo : {Addr : Type 0} → Option Addr → Sent Addr → Type 0
GoesTo peer (sent a bytes) = peer ≡ some a
GoesTo peer (handed_on bytes) = Unit

address_to-GoesTo :
    {Addr : Type 0} (a : Addr) (es : List Effect) → All (GoesTo (some a)) (map (address_to a) es)
address_to-GoesTo a [] = tt
address_to-GoesTo a (to_peer bytes ∷ es) = (refl, address_to-GoesTo a es)
address_to-GoesTo a (injected bytes ∷ es) = (tt, address_to-GoesTo a es)

module _ (wg : Boringtun) (Addr : Type 0) where
  open wg use {Tunn}

  -- An outcome leaves the given peer, and sends to nobody else.
  abbrev pub Addressed : Option Addr → Outcome wg Addr → Type 0
  Addressed peer (some (found (st, out))) = (st.peer_addr ≡ peer) × All (GoesTo peer) out
  Addressed peer _ = Unit

  settle-Addressed :
      (src : Addr) (reply : Reply wg) → Addressed (some src) (some (settle wg Addr src reply))
  settle-Addressed src ignored = tt
  settle-Addressed src panicked = tt
  settle-Addressed src (found (t, active, es)) = (refl, address_to-GoesTo src es)

  map-settle-Addressed :
      (src : Addr) (o : Option (Reply wg))
      → Addressed (some src) (Option.map (settle wg Addr src) o)
  map-settle-Addressed src none = tt
  map-settle-Addressed src (some reply) = settle-Addressed src reply

  to_peer_addr-Addressed :
      (peer : Option Addr) (st : State wg Addr) (act : Tunn → Tunn × List Effect)
      → st.peer_addr ≡ peer
      → Addressed peer (some (found (to_peer_addr wg Addr peer st act)))
  to_peer_addr-Addressed none st act e = (e, tt)
  to_peer_addr-Addressed (some addr) st act e = (e, address_to-GoesTo addr (act st.tunn).1)

  handle_event-Addressed :
      (fuel : Tunn → ℕ) (env : Env) (e : Event Addr) (st : State wg Addr)
      → Addressed (last_source st.peer_addr (e ∷ [])) (handle_event wg Addr fuel env e st)
  unfolding handle_event
  handle_event-Addressed fuel env recv_error st = (refl, tt)
  handle_event-Addressed fuel env (egress p) st = to_peer_addr-Addressed st.peer_addr st _ refl
  handle_event-Addressed fuel env (timer room) st = to_peer_addr-Addressed st.peer_addr st _ refl
  handle_event-Addressed fuel env discovery_timer st = to_peer_addr-Addressed st.peer_addr st _ refl
  handle_event-Addressed fuel env (received src bytes room) st =
      elim (Bool-cases st.session_active) [
        | inl e ↦
            rw e
              (map-settle-Addressed src (receive_active wg (fuel st.tunn) env room bytes st.tunn))
        | inr e ↦ rw e (
            settle-Addressed src
              (receive_first wg.encapsulate wg.decapsulate env room bytes st.tunn))
      ]

  abbrev PeerIs : Option Addr → Outcome wg Addr → Type 0
  PeerIs peer (some (found (st, out))) = st.peer_addr ≡ peer
  PeerIs peer _ = Unit

  later-PeerIs :
      (peer : Option Addr) (out : List (Sent Addr)) (o : Outcome wg Addr)
      → PeerIs peer o
      → PeerIs peer (Option.map (later wg Addr out) o)
  later-PeerIs peer out none h = tt
  later-PeerIs peer out (some ignored) h = tt
  later-PeerIs peer out (some panicked) h = tt
  later-PeerIs peer out (some (found (st, more))) h = h

  and_then-PeerIs :
      (p q : Option Addr) (o : Outcome wg Addr) (f : State wg Addr → Outcome wg Addr)
      → Addressed p o
      → ((st : State wg Addr) → st.peer_addr ≡ p → PeerIs q (f st))
      → PeerIs q (and_then wg Addr o f)
  and_then-PeerIs p q none f h k = tt
  and_then-PeerIs p q (some ignored) f h k = tt
  and_then-PeerIs p q (some panicked) f h k = tt
  and_then-PeerIs p q (some (found (st, out))) f h k = later-PeerIs q out (f st) (k st h.0)

  last_source-cons :
      (peer : Option Addr) (e : Event Addr) (es : List (Event Addr))
      → last_source peer (e ∷ es) ≡ last_source (last_source peer (e ∷ [])) es
  last_source-cons peer recv_error es = refl
  last_source-cons peer (received src bytes room) es = refl
  last_source-cons peer (egress p) es = refl
  last_source-cons peer (timer room) es = refl
  last_source-cons peer discovery_timer es = refl

  last_source-append :
      (peer : Option Addr) (es fs : List (Event Addr))
      → last_source peer (es ++ fs) ≡ last_source (last_source peer es) fs
  last_source-append peer [] fs = refl
  last_source-append peer (e ∷ es) fs =
      last_source-cons peer e (es ++ fs)
      ∙ last_source-append (last_source peer (e ∷ [])) es fs
      ∙ ap (λ p. last_source p fs) (sym (last_source-cons peer e es))

  packet_loop-PeerIs :
      (fuel : Tunn → ℕ) (env : Env) (es : List (Event Addr)) (st : State wg Addr)
      → PeerIs (last_source st.peer_addr es) (packet_loop wg Addr fuel env es st)
  unfolding packet_loop
  packet_loop-PeerIs fuel env [] st = refl
  packet_loop-PeerIs fuel env (e ∷ es) st =
      let p = last_source st.peer_addr (e ∷ []) in
      and_then-PeerIs p (last_source st.peer_addr (e ∷ es)) (handle_event wg Addr fuel env e st)
        (packet_loop wg Addr fuel env es) (handle_event-Addressed fuel env e st)
        (λ st' h.
          subst (λ q. PeerIs q (packet_loop wg Addr fuel env es st'))
            (ap (λ r. last_source r es) h ∙ sym (last_source-cons st.peer_addr e es))
            (packet_loop-PeerIs fuel env es st'))

  -- The packet loop sends to the peer alone: after any events, whatever the next event makes it send
  -- goes to the source of the last datagram received, that event included, and nothing is sent
  -- before a datagram has come.
  pub packet_loop-Addressed :
      (fuel : Tunn → ℕ) (env : Env) (es : List (Event Addr)) (e : Event Addr)
      (st st' : State wg Addr) (out : List (Sent Addr))
      → packet_loop wg Addr fuel env es st ≡ some (found (st', out))
      → Addressed (last_source st.peer_addr (es ++ e ∷ [])) (handle_event wg Addr fuel env e st')
  packet_loop-Addressed fuel env es e st st' out h =
      subst (λ p. Addressed p (handle_event wg Addr fuel env e st'))
        (ap (λ p. last_source p (e ∷ [])) here ∙ sym (last_source-append st.peer_addr es (e ∷ [])))
        (handle_event-Addressed fuel env e st')
    where
      here : st'.peer_addr ≡ last_source st.peer_addr es
      here = subst (PeerIs (last_source st.peer_addr es)) h (packet_loop-PeerIs fuel env es st)
