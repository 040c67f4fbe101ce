-- ===== src/Control/Client.antt =====
-- src/control.rs: `handle_client`, one line of one client at a time, up to and with what it hands
-- to the upstream channel.
use seestar_proxy.Base.{ℕ, ◌+◌, none, some, [], ◌∷◌, ltb, leb, if◌then◌else◌, length, unwrap_or}
use seestar_proxy.Base.Text.{Bytes, Text, from_utf8_lossy, trim, can_slice}
use seestar_proxy.Json.{Value}
use seestar_proxy.Protocol.{set_json_rpc_id, get_id}
use seestar_proxy.Lines.{max_line_bytes}
use seestar_proxy.Metrics.{u64}
use seestar_proxy.Hooks.{HookAction, forward, block, modify, reply, on_request}
use seestar_proxy.Control.Pending.{PendingMap, remove, insert}
use seestar_proxy.Control.State.{
  Proxy, Env, to_telescope, from_client, Flow, next, stop, error, panic, Outcome, prepend,
  on_metrics, record_if, serialise, send_client, too_many, max_pending_requests, debug_slice,
  is_panic, log_text,
}

-- The size check, the entry, and the send: `handle_client` under one lock, then `upstream_tx.send`.
unfoldable pub register : Env → ℕ → ℕ → Value → Text → Proxy → Outcome
register env client rid id forwarded p =
    if leb max_pending_requests (length p.pending)
    then (p, send_client env client (serialise env (too_many id)), next)
    else if env.upstream_open
    then (record p { pending = entered }, to_telescope forwarded ∷ [], next)
    else (record p { pending = remove rid entered }, [], stop)
  where
    entered : PendingMap
    entered = insert rid (record { client = client; original_id = id }) p.pending

unfoldable pub forward_tracked : Env → ℕ → Value → Value → Proxy → Outcome
forward_tracked env client msg id p =
    let p' = record p { next_id = u64 (p.next_id + 1) } in
    elim (env.serde.to_string (set_json_rpc_id msg p.next_id)) [
      | none ↦ (p', [], next)
      | some forwarded ↦ register env client p.next_id id forwarded p'
    ]

unfoldable pub forward_notification : Env → Value → Proxy → Outcome
forward_notification env msg p = elim (env.serde.to_string msg) [
  | none ↦ (p, [], error)
  | some forwarded ↦
      if env.upstream_open then (p, to_telescope forwarded ∷ [], next) else (p, [], stop)
]

unfoldable pub forward_request : Env → ℕ → Value → Proxy → Outcome
forward_request env client msg p = elim (get_id msg) [
  | some id ↦ forward_tracked env client msg id p
  | none ↦ forward_notification env msg p
]

unfoldable pub request_action : Env → Value → HookAction
request_action env msg = elim env.hooks [ none ↦ forward | some h ↦ on_request env.serde h msg ]

unfoldable pub send_reply : Env → ℕ → Text → Flow → Proxy → Outcome
send_reply env client t flow p =
    if is_panic flow then (p, [], panic) else (p, send_client env client t, next)

unfoldable pub apply_action : Env → ℕ → Text → Value → HookAction → Proxy → Outcome
apply_action env client trimmed msg forward p = forward_request env client msg p
apply_action env client trimmed msg block p = (p, [], debug_slice env trimmed)
apply_action env client trimmed msg (modify new_json) p =
    forward_request env client (unwrap_or (env.serde.from_str new_json) msg) p
apply_action env client trimmed msg (reply reply_json) p =
    send_reply env client reply_json (debug_slice env reply_json) p

unfoldable pub handle_text : Env → ℕ → Text → Proxy → Outcome
handle_text env client trimmed p = elim (env.serde.from_str trimmed) [
  | none ↦ (p, [], if can_slice 100 trimmed then next else panic)
  | some msg ↦ apply_action env client trimmed msg (request_action env msg) p
]

unfoldable pub note_request : Env → Text → Proxy → Proxy
note_request env t =
    on_metrics λ m. log_text env "ctrl-tx" t (record m { control_tx = u64 (m.control_tx + 1) })

unfoldable pub handle_trimmed : Env → ℕ → Text → Proxy → Outcome
handle_trimmed env client [] p = (p, [], next)
handle_trimmed env client (c ∷ cs) p =
    prepend (record_if env from_client (c ∷ cs))
      (handle_text env client (c ∷ cs) (note_request env (c ∷ cs) p))

-- One turn of the read loop of `handle_client`, with the bytes that `read_line_limited` brought.
unfoldable pub handle_line : Env → ℕ → Bytes → Proxy → Outcome
handle_line env client line_buf p =
    if ltb max_line_bytes (length line_buf)
    then (p, [], stop)
    else handle_trimmed env client (trim (from_utf8_lossy line_buf)) p
