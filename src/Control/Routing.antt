-- ===== src/Control/Routing.antt =====
-- src/control.rs: what becomes of a client's request: sent, refused, or dropped with the connection.
pub mod Answers
pub mod Fates
use seestar_proxy.Base.{
  ℕ, ◌+◌, ◌≤◌, ◌<◌, ◌≡◌, refl, ap, ◌∙◌, true, false, Option, none, some, [], ◌∷◌, ◌++◌, leb_lt,
  le→leb, ltb, length, if◌then◌else◌, Bool-cases, inl, inr,
}
use seestar_proxy.Base.Text.{Bytes, Text, from_utf8_lossy, trim}
use seestar_proxy.Json.{Value}
use seestar_proxy.Protocol.{is_event, json_rpc_id, set_json_rpc_id, set_json_rpc_id_value, get_id}
use seestar_proxy.Lines.{max_line_bytes}
use seestar_proxy.Metrics.{u64}
use seestar_proxy.Hooks.{forward}
use seestar_proxy.Control.Pending.{PendingRequest, lookup, remove, insert}
use seestar_proxy.Control.State.{
  Proxy, Env, to_telescope, to_all, from_client, from_telescope, next, stop, too_many, prepend,
  record_if, serialise, send_client, max_pending_requests,
}
use seestar_proxy.Control.Client.{
  register, forward_tracked, forward_request, request_action, apply_action, handle_text,
  note_request, handle_trimmed, handle_line,
}
use seestar_proxy.Control.Upstream.{
  classify, handle_response, deliver, note_response, count_response, handle_parsed, handle_message,
  can_hint, response_forwarded,
}
use seestar_proxy.Control.Upstream
use seestar_proxy.Control.Steps.{parsed}
use seestar_proxy.Control.Invariant.{Inv, remove-insert}

-- A request that reaches the map: a line within the limit that parses, passes the hook and has an
-- id, and that can be printed under the next proxy id.
pub record Submits (env : Env) (line : Bytes) (msg id : Value) (text : Text) (p : Proxy)
    : Type 0 where
  pub head : ℕ
  pub tail : Text
  pub short : ltb max_line_bytes (length line) ≡ false
  pub trimmed : trim (from_utf8_lossy line) ≡ head ∷ tail
  pub parses : env.serde.from_str (head ∷ tail) ≡ some msg
  pub passes : request_action env msg ≡ forward
  pub has_id : get_id msg ≡ some id
  pub prints : env.serde.to_string (set_json_rpc_id msg p.next_id) ≡ some text

abbrev pub owner : ℕ → Value → PendingRequest
owner client id = record { client = client; original_id = id }

handle_line_text :
    (env : Env) (client head : ℕ) (line tail : Text) (p : Proxy)
    → ltb max_line_bytes (length line) ≡ false
    → trim (from_utf8_lossy line) ≡ head ∷ tail
    → handle_line env client line p
      ≡ prepend
          (record_if env from_client (head ∷ tail))
          (handle_text env client (head ∷ tail) (note_request env (head ∷ tail) p))
unfolding handle_line handle_trimmed
handle_line_text env client head line tail p short e = rw (short, e)

handle_text_tracked :
    (env : Env) (client : ℕ) (t : Text) (msg id : Value) (text : Text) (p : Proxy)
    → env.serde.from_str t ≡ some msg
    → request_action env msg ≡ forward
    → get_id msg ≡ some id
    → env.serde.to_string (set_json_rpc_id msg p.next_id) ≡ some text
    → handle_text env client t p
      ≡ register env client p.next_id id text (record p { next_id = u64 (p.next_id + 1) })
unfolding handle_text apply_action forward_request forward_tracked
handle_text_tracked env client t msg id text p parses passes has_id prints =
    rw (parses, handle_text)
      (rw (passes, apply_action) (rw (has_id, forward_request) (rw (prints, forward_tracked))))

handle_line_registers :
    (env : Env) (client : ℕ) (line : Bytes) (msg id : Value) (text : Text) (p : Proxy)
    → (s : Submits env line msg id text p)
    → let t = s.head ∷ s.tail in
      handle_line env client line p
      ≡ prepend (record_if env from_client t) (
          register env client p.next_id id text
            (record (note_request env t p) { next_id = u64 (p.next_id + 1) }))
unfolding note_request
handle_line_registers env client line msg id text p s =
    let t = s.head ∷ s.tail in
    handle_line_text env client s.head line s.tail p s.short s.trimmed
    ∙ ap (prepend (record_if env from_client t)) (
        handle_text_tracked env client t msg id text (note_request env t p) s.parses s.passes
          s.has_id s.prints)

-- With room in the map and the upstream channel open, a request is sent to the telescope once, under
-- the next proxy id, and entered in the map under that id for its client.
pub handle_line-Submits :
    (env : Env) (client : ℕ) (line : Bytes) (msg id : Value) (text : Text) (p : Proxy)
    → (s : Submits env line msg id text p) → length p.pending < max_pending_requests
    → env.upstream_open ≡ true
    → let (q, effects, flow) = handle_line env client line p in
      (q.pending ≡ insert p.next_id (owner client id) p.pending)
      × (q.next_id ≡ u64 (p.next_id + 1))
      × (effects ≡ record_if env from_client (s.head ∷ s.tail) ++ to_telescope text ∷ [])
      × (flow ≡ next)
unfolding note_request register
handle_line-Submits env client line msg id text p s room up =
    rw (handle_line_registers env client line msg id text p s)
      (rw (leb_lt _ _ room) (rw up (refl, refl, refl, refl)))

-- With the map full, a request is answered with the error -32000 under its own id, the map is as
-- before and nothing reaches the telescope.
pub handle_line_full :
    (env : Env) (client : ℕ) (line : Bytes) (msg id : Value) (text : Text) (p : Proxy)
    → (s : Submits env line msg id text p) → max_pending_requests ≤ length p.pending
    → let (q, effects, flow) = handle_line env client line p in
      (q.pending ≡ p.pending)
      × (effects
          ≡ record_if env from_client (s.head ∷ s.tail)
            ++ send_client env client (serialise env (too_many id)))
      × (flow ≡ next)
unfolding note_request register
handle_line_full env client line msg id text p s full =
    rw (handle_line_registers env client line msg id text p s)
      (rw (le→leb _ _ full) (refl, refl, refl))

-- With the upstream channel closed, a request leaves the map as it was: the entry made for it is
-- taken off again, nothing is sent, and the connection's loop ends.
pub handle_line_down :
    (env : Env) (client : ℕ) (line : Bytes) (msg id : Value) (text : Text) (p : Proxy)
    → (s : Submits env line msg id text p) → Inv p
    → length p.pending < max_pending_requests
    → env.upstream_open ≡ false
    → let (q, effects, flow) = handle_line env client line p in
      (q.pending ≡ p.pending)
      × (effects ≡ record_if env from_client (s.head ∷ s.tail) ++ [])
      × (flow ≡ stop)
unfolding note_request register
handle_line_down env client line msg id text p s v room down =
    rw (handle_line_registers env client line msg id text p s) (
      rw (leb_lt _ _ room)
        (rw down (remove-insert p.next_id (owner client id) p.pending v.issued, refl, refl)))
