-- ===== src/Control/Reconnection.antt =====
-- src/control.rs: a new telescope connection fails every request of the old one.
use seestar_proxy.Base.{
  ◌≡◌, refl, false, ◌&&◌, List, [], ◌∷◌, map, if◌then◌else◌, Bool-cases, inl, inr,
}
use seestar_proxy.Control.Pending.{PendingMap, PendingRequest}
use seestar_proxy.Control.State.{Proxy, Env, to_client, serialise, reconnecting}
use seestar_proxy.Control.Upstream.{fail_pending, reconnect}

-- The waiting requests whose client's channel is open and has room.
abbrev pub reachable : Env → PendingMap → List PendingRequest
reachable env [] = []
reachable env ((rid, r) ∷ m) =
    let rest = reachable env m in
    if env.client_open r.client && env.client_room r.client then r ∷ rest else rest

fail_pending_lem :
    (env : Env) (m : PendingMap)
    → fail_pending env m
      ≡ map (λ r. to_client r.client (serialise env (reconnecting r.original_id))) (reachable env m)
unfolding fail_pending
fail_pending_lem env [] = refl
fail_pending_lem env ((rid, r) ∷ m) =
    elim (Bool-cases (env.client_open r.client && env.client_room r.client)) [
      | inl e ↦ rw (e, fail_pending_lem env m)
      | inr e ↦ rw (e, fail_pending_lem env m)
    ]

-- A reconnection clears the map and closes the handshake gate, keeps the id counter, and puts the
-- error `telescope reconnecting` into the channel of each client that waits and can take a message,
-- once for each of its requests and under that request's own id; it sends nothing else.
pub reconnect_lem :
    (env : Env) (p : Proxy)
    → let (q, effects, flow) = reconnect env p in
      (q.pending ≡ [])
      × (q.handshake_done ≡ false)
      × (q.next_id ≡ p.next_id)
      × (effects
          ≡ map
              (λ r. to_client r.client (serialise env (reconnecting r.original_id)))
              (reachable env p.pending))
unfolding reconnect
reconnect_lem env p = (refl, refl, refl, fail_pending_lem env p.pending)
