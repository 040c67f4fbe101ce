-- ===== src/Control/Steps.antt =====
-- src/control.rs: the tasks of the proxy as a sequence of steps over the shared state.
use seestar_proxy.Base.{
  ℕ, Bool, true, false, not, ◌&&◌, Option, none, some, List, [], ◌∷◌, ◌++◌, ◌==◌, if◌then◌else◌,
}
use seestar_proxy.Base.Text.{Bytes, from_utf8_lossy, trim}
use seestar_proxy.Json.{Value}
use seestar_proxy.Protocol.{is_event, json_rpc_id}
use seestar_proxy.Hooks.Telescope.{new_table}
use seestar_proxy.Control.State.{Proxy, Env, Effect, Outcome, first_id}
use seestar_proxy.Control.Client.{handle_line}
use seestar_proxy.Control.Upstream.{handle_message, reconnect, heartbeat, set_upstream_up, can_hint}
use seestar_proxy.Metrics.{Metrics}

pub data Op : Type 0 where
  client_line : Env → ℕ → Bytes → Op
  telescope_line : Env → Bytes → Op
  heartbeats : Env → Op
  reconnects : Env → Op
  reader_up : Bool → Op

unfoldable pub init : Option Metrics → Proxy
init metrics = record {
  next_id = first_id;
  pending = [];
  handshake_done = false;
  metrics = metrics;
  telescope = new_table;
}

unfoldable pub step : Op → Proxy → Outcome
step (client_line env client line) p = handle_line env client line p
step (telescope_line env line) p = handle_message env line p
step (heartbeats env) p = heartbeat env p
step (reconnects env) p = reconnect env p
step (reader_up up) p = set_upstream_up up p

unfoldable pub run : List Op → Proxy → Proxy × List Effect
run [] p = (p, [])
run (op ∷ ops) p = let (q, es, flow) = step op p in let (r, fs) = run ops q in (r, es ++ fs)

-- The message that a line of the telescope holds, if the reader gets to look at it.
abbrev pub parsed : Env → Bytes → Option Value
parsed env line = elim (trim (from_utf8_lossy line)) [
  | [] ↦ none
  | c ∷ cs ↦ if can_hint (c ∷ cs) then env.serde.from_str (c ∷ cs) else none
]

abbrev pub is_id : ℕ → Option ℕ → Bool
is_id rid none = false
is_id rid (some n) = n == rid

abbrev pub answers_message : ℕ → Option Value → Bool
answers_message rid none = false
answers_message rid (some msg) = not (is_event msg) && is_id rid (json_rpc_id msg)

-- A step that takes the request `rid` off the map: a message of the telescope under that id that is
-- no event, or a reconnection.
abbrev pub settles : ℕ → Op → Bool
settles rid (client_line env client line) = false
settles rid (telescope_line env line) = answers_message rid (parsed env line)
settles rid (heartbeats env) = false
settles rid (reconnects env) = true
settles rid (reader_up up) = false
