-- ===== src/Control/State.antt =====
-- src/control.rs: the state that the tasks share, what a step finds, and what it sends.
use seestar_proxy.Base.{
  ℕ, String, Bool, true, false, not, ◌&&◌, Option, none, some, List, [], ◌∷◌, ◌++◌, if◌then◌else◌,
  unwrap_or,
}
use seestar_proxy.Base.Text.{Text, can_slice}
use seestar_proxy.Json.{Value, object, field, end, number, neg_int, string, Serde, Floats}
use seestar_proxy.Protocol.{method_name}
use seestar_proxy.Metrics.{Metrics, Now, push_log_with_payload}
use seestar_proxy.Hooks.{HookEngine}
use seestar_proxy.Hooks.Telescope.{TelescopeTable}
use seestar_proxy.Control.Pending.{PendingMap}

abbrev pub max_pending_requests : ℕ
max_pending_requests = 1024

abbrev pub first_id : ℕ
first_id = 100_000

-- What the tasks share: `next_id`, `ControlState`, `handshake_done`, the metrics if they are kept,
-- and the table that the hook scripts read.
pub record Proxy : Type 0 where
  pub next_id : ℕ
  pub pending : PendingMap
  pub handshake_done : Bool
  pub metrics : Option Metrics
  pub telescope : TelescopeTable

pub data Source : Type 0 where
  from_client from_telescope : Source

-- What a step does outside the state: a line of the recording, a message into the upstream
-- channel, into one client's channel, or into the broadcast channel.
pub data Effect : Type 0 where
  recorded : Source → Text → Effect
  to_telescope : Text → Effect
  to_client : ℕ → Text → Effect
  to_all : Text → Effect

-- How the task goes on: with its next line, out of its loop, by an early return of an error, or by
-- a panic.
pub data Flow : Type 0 where
  next stop error panic : Flow

-- What a step finds: the libraries, the clocks, the options, and which channels take a message.
-- The log shows `info` and above; `debug_on` tells whether it shows `debug`.
pub record Env : Type 0 where
  pub serde : Serde
  pub floats : Floats
  pub now : Now
  pub recording : Bool
  pub hooks : Option HookEngine
  pub debug_on : Bool
  pub upstream_open : Bool
  pub client_open : ℕ → Bool
  pub client_room : ℕ → Bool

abbrev pub Outcome : Type 0
Outcome = Proxy × List Effect × Flow

abbrev pub prepend : List Effect → Outcome → Outcome
prepend es (p, fs, flow) = (p, es ++ fs, flow)

abbrev pub on_metrics : (Metrics → Metrics) → Proxy → Proxy
on_metrics f p = record p { metrics = elim p.metrics [ none ↦ none | some m ↦ some (f m) ] }

abbrev pub record_if : Env → Source → Text → List Effect
record_if env source t = if env.recording then recorded source t ∷ [] else []

-- `serde_json::to_string(..).unwrap_or_default()`.
abbrev pub serialise : Env → Value → Text
serialise env v = unwrap_or (env.serde.to_string v) []

abbrev pub send_client : Env → ℕ → Text → List Effect
send_client env client t = if env.client_open client then to_client client t ∷ [] else []

-- `json!({"id": .., "code": .., "error": ..})` with a negative code -(n + 1).
abbrev pub error_reply : Value → ℕ → String → Value
error_reply id n message =
    object (field "id" id (field "code" (number (neg_int n)) (field "error" (string message) end)))

abbrev pub too_many : Value → Value
too_many id = error_reply id 31999 "too many pending requests"

abbrev pub reconnecting : Value → Value
reconnecting id = error_reply id 0 "telescope reconnecting"

-- `debug!` formats its arguments only if the log shows them.
unfoldable pub debug_slice : Env → Text → Flow
debug_slice env t = if env.debug_on && not (can_slice 100 t) then panic else next

abbrev pub is_panic : Flow → Bool
is_panic panic = true
is_panic _ = false

-- A JSON text is logged with its method.
unfoldable pub log_text : Env → String → Text → Metrics → Metrics
log_text env channel t m = elim (env.serde.from_str t) [
  | none ↦ m
  | some v ↦ push_log_with_payload env.now channel (unwrap_or (method_name v) "?") (some t) m
]
