-- ===== src/Control/Routing/Answers.antt =====
-- src/control.rs: where a message of the telescope goes.
use seestar_proxy.Base.{
  ℕ, ◌≡◌, refl, ap, ◌∙◌, true, false, Option, none, some, [], ◌∷◌, ◌++◌, if◌then◌else◌, Bool-cases,
  inl, inr,
}
use seestar_proxy.Base.Text.{Bytes, Text, from_utf8_lossy, trim}
use seestar_proxy.Json.{Value}
use seestar_proxy.Protocol.{is_event, json_rpc_id, set_json_rpc_id_value}
use seestar_proxy.Control.Pending.{PendingRequest, lookup, remove}
use seestar_proxy.Control.State.{
  Proxy, Env, to_all, from_telescope, next, prepend, record_if, serialise, send_client,
}
use seestar_proxy.Control.Upstream.{
  classify, handle_response, deliver, note_response, count_response, handle_parsed, handle_message,
  can_hint, response_forwarded,
}
use seestar_proxy.Control.Upstream
use seestar_proxy.Control.Steps.{parsed}

-- A message of the telescope that is no event and has an unsigned id.
pub record Answers (env : Env) (line : Bytes) (msg : Value) (rid : ℕ) : Type 0 where
  pub reads : parsed env line ≡ some msg
  pub no_event : is_event msg ≡ false
  pub has_id : json_rpc_id msg ≡ some rid

abbrev shown : Env → Text → Option Value
shown env [] = none
shown env (c ∷ cs) = if can_hint (c ∷ cs) then env.serde.from_str (c ∷ cs) else none

handle_parsed_known :
    (env : Env) (t : Text) (msg : Value) (rid : ℕ) (r : PendingRequest) (p : Proxy)
    → env.serde.from_str t ≡ some msg
    → is_event msg ≡ false
    → json_rpc_id msg ≡ some rid
    → lookup rid p.pending ≡ some r
    → handle_parsed env t p
      ≡ deliver env msg r (record (count_response p) { pending = remove rid p.pending })
unfolding handle_parsed classify handle_response
handle_parsed_known env t msg rid r p parses no_event has_id found =
    rw (parses, handle_parsed) (rw (no_event, has_id, classify) (rw (found, handle_response)))

handle_parsed_unknown :
    (env : Env) (t : Text) (msg : Value) (rid : ℕ) (p : Proxy)
    → env.serde.from_str t ≡ some msg
    → is_event msg ≡ false
    → json_rpc_id msg ≡ some rid
    → lookup rid p.pending ≡ none
    → handle_parsed env t p
      ≡ Upstream.handle_untracked env t msg
          (record (count_response p) { pending = remove rid p.pending })
unfolding handle_parsed classify handle_response
handle_parsed_unknown env t msg rid p parses no_event has_id found =
    rw (parses, handle_parsed) (rw (no_event, has_id, classify) (rw (found, handle_response)))

handle_trimmed-shown :
    (env : Env) (t : Text) (msg : Value) (p : Proxy)
    → shown env t ≡ some msg
    → (env.serde.from_str t ≡ some msg)
      × (Upstream.handle_trimmed env t p
          ≡ prepend
              (record_if env from_telescope t)
              (handle_parsed env t (record p { handshake_done = true })))
unfolding Upstream.handle_trimmed
handle_trimmed-shown env [] msg p h = cc
handle_trimmed-shown env (c ∷ cs) msg p h = elim (Bool-cases (can_hint (c ∷ cs))) [
  | inl e ↦ (rw e at h, rw e)
  | inr e ↦ cc
]

-- The answer to a waiting request goes to its owner alone, with the owner's id put back; the
-- request leaves the map, and nothing is broadcast.
pub handle_message-Answers :
    (env : Env) (line : Bytes) (msg : Value) (rid : ℕ) (r : PendingRequest) (p : Proxy)
    → Answers env line msg rid
    → lookup rid p.pending ≡ some r
    → let (q, effects, flow) = handle_message env line p in
      (q.pending ≡ remove rid p.pending)
      × (effects
          ≡ record_if env from_telescope (trim (from_utf8_lossy line))
            ++ send_client env r.client (serialise env (set_json_rpc_id_value msg r.original_id)))
      × (flow ≡ next)
unfolding handle_message deliver note_response count_response
handle_message-Answers env line msg rid r p a found =
    let t = trim (from_utf8_lossy line) in
    let (parses, eq) = handle_trimmed-shown env t msg p a.reads in
    rw
      (eq
        ∙ ap (prepend (record_if env from_telescope t)) (
            handle_parsed_known env t msg rid r (record p { handshake_done = true }) parses
              a.no_event a.has_id found))
      (refl, refl, refl)

-- The answer to an id that nobody waits for reaches no single client: it is broadcast to all, unless
-- a hook blocks it.
pub handle_message_untracked :
    (env : Env) (line : Bytes) (msg : Value) (rid : ℕ) (p : Proxy)
    → Answers env line msg rid
    → lookup rid p.pending ≡ none
    → let t = trim (from_utf8_lossy line) in
      (handle_message env line p).1
      ≡ record_if env from_telescope t ++ (if response_forwarded env msg then to_all t ∷ [] else [])
unfolding handle_message Upstream.handle_untracked count_response
handle_message_untracked env line msg rid p a found =
    let t = trim (from_utf8_lossy line) in
    let (parses, eq) = handle_trimmed-shown env t msg p a.reads in
    rw (
      eq
      ∙ ap (prepend (record_if env from_telescope t)) (
          handle_parsed_unknown env t msg rid (record p { handshake_done = true }) parses a.no_event
            a.has_id found))
