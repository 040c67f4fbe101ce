-- ===== src/Control/Upstream.antt =====
-- src/control.rs: `upstream_reader_task`, one line of the telescope at a time, the start of a new
-- telescope connection, and the heartbeat.
use seestar_proxy.Base.{
  ℕ, ◌+◌, String, Bool, true, false, ◌&&◌, none, some, List, [], ◌∷◌, ◌++◌, ltb, if◌then◌else◌,
  unwrap_or, ◌>>=◌,
}
use seestar_proxy.Base.Text.{
  Bytes, Text, codes, from_utf8_lossy, trim, can_slice, utf8_len, find, decimal,
}
use seestar_proxy.Json.{Value, get, as_str}
use seestar_proxy.Protocol.{json_rpc_id, set_json_rpc_id_value, is_event, method_name}
use seestar_proxy.Metrics.{
  u64, push_log_with_payload, update_event, update_response, reset_telescope_state,
}
use seestar_proxy.Hooks.{HookAction, forward, block, modify, reply, on_response, on_event}
use seestar_proxy.Hooks.Telescope.{TelescopeTable, update_telescope_state, on_upstream_connect}
use seestar_proxy.Control.Pending.{PendingMap, PendingRequest, lookup, remove}
use seestar_proxy.Control.State.{
  Proxy, Env, Effect, to_telescope, to_client, to_all, from_telescope, next, stop, panic, Outcome,
  prepend, on_metrics, record_if, serialise, send_client, reconnecting,
}

-- The end of the part that a log line quotes; its start is a character boundary.
abbrev pub hint_end : Text → ℕ
hint_end t = elim (find (codes "\"method\"") t) [
  | some start ↦ start + 50
  | none ↦ elim (find (codes "\"Event\"") t) [ some start ↦ start + 40 | none ↦ 60 ]
]

-- Whether the `info!` line with `method_hint` can be written.
unfoldable pub can_hint : Text → Bool
can_hint t = if ltb 20 (utf8_len t) then can_slice (hint_end t) t else true

-- Events and responses are forwarded unless a hook blocks them.
abbrev pub is_forwarded : HookAction → Bool
is_forwarded forward = true
is_forwarded block = false
is_forwarded (modify _) = true
is_forwarded (reply _) = true

unfoldable pub event_forwarded : Env → Value → Bool
event_forwarded env msg = elim env.hooks [
  | none ↦ true
  | some h ↦ is_forwarded (on_event env.serde h msg)
]

unfoldable pub response_forwarded : Env → Value → Bool
response_forwarded env msg = elim env.hooks [
  | none ↦ true
  | some h ↦ is_forwarded (on_response env.serde h msg)
]

unfoldable pub note_event : Env → String → Text → Value → Proxy → Proxy
note_event env name trimmed msg = on_metrics λ m. update_event env.floats env.now name msg (
    push_log_with_payload env.now "ctrl-evt" name (some trimmed)
      (record m { control_events = u64 (m.control_events + 1) }))

unfoldable pub handle_event : Env → Text → Value → Proxy → Outcome
handle_event env trimmed msg p =
    let name = unwrap_or (do v ← get msg "Event"; as_str v) "?" in
    (
      note_event env name trimmed msg p,
      if event_forwarded env msg then to_all trimmed ∷ [] else [],
      next,
    )

unfoldable pub note_response : Env → Value → Text → Proxy → Proxy
note_response env response text = on_metrics λ m.
    update_response env.floats response
      (push_log_with_payload env.now "ctrl-rx" (unwrap_or (method_name response) "?") (some text) m)

unfoldable pub deliver : Env → Value → PendingRequest → Proxy → Outcome
deliver env msg r p =
    let response = set_json_rpc_id_value msg r.original_id in
    let text = serialise env response in
    (note_response env response text p, send_client env r.client text, next)

unfoldable pub handle_untracked : Env → Text → Value → Proxy → Outcome
handle_untracked env trimmed msg p =
    (p, if response_forwarded env msg then to_all trimmed ∷ [] else [], next)

unfoldable pub count_response : Proxy → Proxy
count_response = on_metrics λ m. record m { control_rx = u64 (m.control_rx + 1) }

-- `pending.remove(&remapped_id)` gives back the entry.
unfoldable pub handle_response : Env → Text → Value → ℕ → Proxy → Outcome
handle_response env trimmed msg rid p =
    let p' = record (count_response p) { pending = remove rid p.pending } in
    elim (lookup rid p.pending) [
      | some r ↦ deliver env msg r p'
      | none ↦ handle_untracked env trimmed msg p'
    ]

unfoldable pub update_table : Env → Value → Proxy → Proxy
update_table env msg p = elim env.hooks [
  | none ↦ p
  | some h ↦ record p { telescope = update_telescope_state env.floats msg p.telescope }
]

unfoldable pub classify : Env → Text → Value → Proxy → Outcome
classify env trimmed msg p =
    if is_event msg
    then handle_event env trimmed msg (update_table env msg p)
    else elim (json_rpc_id msg) [
      | some rid ↦ handle_response env trimmed msg rid p
      | none ↦ (p, to_all trimmed ∷ [], next)
    ]

unfoldable pub handle_parsed : Env → Text → Proxy → Outcome
handle_parsed env trimmed p = elim (env.serde.from_str trimmed) [
  | none ↦ (p, [], if can_slice 100 trimmed then next else panic)
  | some msg ↦ classify env trimmed msg p
]

unfoldable pub handle_trimmed : Env → Text → Proxy → Outcome
handle_trimmed env [] p = (p, [], next)
handle_trimmed env (c ∷ cs) p =
    if can_hint (c ∷ cs)
    then prepend (record_if env from_telescope (c ∷ cs))
        (handle_parsed env (c ∷ cs) (record p { handshake_done = true }))
    else (p, [], panic)

-- One turn of the inner loop of `upstream_reader_task`.
unfoldable pub handle_message : Env → Bytes → Proxy → Outcome
handle_message env line_bytes p = handle_trimmed env (trim (from_utf8_lossy line_bytes)) p

-- `try_send` drops the message if the client's channel is closed or full.
unfoldable pub fail_pending : Env → PendingMap → List Effect
fail_pending env [] = []
fail_pending env ((rid, r) ∷ m) =
    (if env.client_open r.client && env.client_room r.client
      then to_client r.client (serialise env (reconnecting r.original_id)) ∷ []
      else [])
    ++ fail_pending env m

-- A new telescope connection: what follows `TcpStream::connect` in `run`.
unfoldable pub reconnect : Env → Proxy → Outcome
reconnect env p = (
  record q { handshake_done = false; pending = []; telescope = table },
  fail_pending env p.pending,
  next,
)
  where
    q : Proxy
    q = on_metrics reset_telescope_state p

    table : TelescopeTable
    table = elim env.hooks [ none ↦ p.telescope | some h ↦ on_upstream_connect p.telescope ]

-- The flag that the reader task sets when it starts and clears when it leaves its loop.
unfoldable pub set_upstream_up : Bool → Proxy → Outcome
set_upstream_up up p = (on_metrics (λ m. record m { upstream_control_up = up }) p, [], next)

unfoldable pub heartbeat_text : ℕ → Text
heartbeat_text id =
    codes "{\"id\":"
    ++ (decimal id ++ codes ",\"method\":\"test_connection\",\"params\":\"verify\"}")

-- One turn of the heartbeat loop, after its sleep.
unfoldable pub heartbeat : Env → Proxy → Outcome
heartbeat env p =
    if p.handshake_done
    then (
      record p { next_id = u64 (p.next_id + 1) },
      if env.upstream_open then to_telescope (heartbeat_text p.next_id) ∷ [] else [],
      if env.upstream_open then next else stop,
    )
    else (p, [], next)
