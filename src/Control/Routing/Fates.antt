-- ===== src/Control/Routing/Fates.antt =====
-- src/control.rs: all that can become of a client's request.
use seestar_proxy.Base.{
  ℕ, ◌+◌, ◌≤◌, ◌<◌, ◌≡◌, refl, sym, subst, true, false, Bool-cases, inl, inr, ◌⊎◌, some, List, [],
  ◌∷◌, ◌++◌, arith, length,
}
use seestar_proxy.Base.Text.{Bytes, Text}
use seestar_proxy.Json.{Value, get, lookup, number, neg_int, string}
use seestar_proxy.Metrics.{u64}
use seestar_proxy.Control.Pending.{insert}
use seestar_proxy.Control.State.{
  Proxy, Env, Effect, Flow, to_telescope, to_client, from_client, next, stop, record_if, serialise,
  send_client, too_many, max_pending_requests,
}
use seestar_proxy.Control.Client.{handle_line}
use seestar_proxy.Control.Invariant.{Inv}
use seestar_proxy.Control.Routing.{
  Submits, owner, handle_line-Submits, handle_line_full, handle_line_down,
}

-- The error that a client gets for its request `id` while too many are under way.
pub record Refusal (id reply : Value) : Type 0 where
  pub own_id : get reply "id" ≡ some id
  -- `neg_int n` is the number -(n + 1).
  pub code : get reply "code" ≡ some (number (neg_int 31_999))
  pub message : get reply "error" ≡ some (string "too many pending requests")

-- What the proxy and the effects after it may be.
pub data Fate (env : Env) (client : ℕ) (id : Value) (text : Text) (p q : Proxy)
    : List Effect → Flow → Type 0 where
  sent :
      length p.pending < max_pending_requests
      → env.upstream_open ≡ true
      → q.pending ≡ insert p.next_id (owner client id) p.pending
      → q.next_id ≡ u64 (p.next_id + 1)
      → Fate env client id text p q (to_telescope text ∷ []) next
  refused :
      (reply : Value)
      → max_pending_requests ≤ length p.pending
      → Refusal id reply
      → q.pending ≡ p.pending
      → env.client_open client ≡ true
      → Fate env client id text p q (to_client client (serialise env reply) ∷ []) next
  refused_unheard :
      max_pending_requests ≤ length p.pending
      → q.pending ≡ p.pending
      → env.client_open client ≡ false
      → Fate env client id text p q [] next
  cut_off :
      length p.pending < max_pending_requests
      → env.upstream_open ≡ false
      → q.pending ≡ p.pending
      → Fate env client id text p q [] stop

too_many-Refusal : (id : Value) → Refusal id (too_many id)
unfolding get lookup
too_many-Refusal id = record { own_id = refl; code = refl; message = refl }

≤-or-< : (m n : ℕ) → (m ≤ n) ⊎ (n < m)
≤-or-< m n = omega arith

refused-Fate :
    (env : Env) (client : ℕ) (id : Value) (text : Text) (p q : Proxy)
    → max_pending_requests ≤ length p.pending
    → q.pending ≡ p.pending
    → Fate env client id text p q (send_client env client (serialise env (too_many id))) next
refused-Fate env client id text p q full same = elim (Bool-cases (env.client_open client)) [
  | inl e ↦ rw e (refused (too_many id) full (too_many-Refusal id) same e)
  | inr e ↦ rw e (refused_unheard full same e)
]

-- A client's request, a line within the limit that parses, passes the hook and has an id, has one of
-- these fates in a well-formed proxy, once it is recorded. With room in the map and the upstream task
-- alive, it goes to the telescope once, under the next proxy id, and the map has it under that id for
-- its client. With the map full, the map stays, nothing goes to the telescope, and the client, if it
-- is still there, is told the error -32000 `too many pending requests` under the request's own id.
-- With room and the upstream task gone, the map stays, nothing is sent, and the client's loop ends.
pub handle_line-Fate :
    (env : Env) (client : ℕ) (line : Bytes) (msg id : Value) (text : Text) (p : Proxy)
    → (s : Submits env line msg id text p) → Inv p
    → let (q, effects, flow) = handle_line env client line p in
      (es : List Effect) × (effects ≡ record_if env from_client (s.head ∷ s.tail) ++ es)
      × Fate env client id text p q es flow
handle_line-Fate env client line msg id text p s v =
    let q = (handle_line env client line p).0 in
    elim (≤-or-< max_pending_requests (length p.pending)) [
      | inl full ↦
          let (same, effects, flow) = handle_line_full env client line msg id text p s full in
          (
            _,
            effects,
            subst (Fate env client id text p q _) (sym flow)
                (refused-Fate env client id text p q full same),
          )
      | inr room ↦ elim (Bool-cases env.upstream_open) [
        | inl up ↦
            let (entered, counted, effects, flow) =
              handle_line-Submits env client line msg id text p s room up in
            (
              _,
              effects,
              subst (Fate env client id text p q _) (sym flow) (sent room up entered counted),
            )
        | inr down ↦
            let (same, effects, flow) =
              handle_line_down env client line msg id text p s v room down in
            (_, effects, subst (Fate env client id text p q _) (sym flow) (cut_off room down same))
      ]
    ]
