-- ===== src/Imaging/Clients.antt =====
-- src/imaging.rs: `handle_client`, the heartbeat, and the writer loop of `run`.
use seestar_proxy.Base.{
  ℕ, zero, suc, ◌+◌, Bool, not, ◌&&◌, Option, none, some, List, [], ◌∷◌, ◌++◌, ltb, ◌==◌,
  if◌then◌else◌, length, unwrap_or, ◌>>=◌,
}
use seestar_proxy.Base.Text.{Bytes, Text, codes, from_utf8_lossy, trim, can_slice, decimal}
use seestar_proxy.Json.{Value}
use seestar_proxy.Protocol.{method_name}
use seestar_proxy.Lines.{max_line_bytes, Stream, read, failed, read_line_limited}
use seestar_proxy.Lines.Reading.{content}
use seestar_proxy.Metrics.{Metrics, Now, u64, push_log_with_payload}

-- What a client's handler finds: the JSON parser, the clock, and whether the command channel is open.
pub record Env : Type 0 where
  pub from_str : Text → Option Value
  pub now : Now
  pub upstream_open : Bool

-- How the handler goes on: with the next line, out of its loop, or out by the `?` of a failed read.
pub data Flow : Type 0 where
  next stop error : Flow

unfoldable pub log_command : Env → Text → Option Metrics → Option Metrics
log_command env t none = none
log_command env t (some m) =
    let method = unwrap_or (do v ← env.from_str t; method_name v) "?" in
    some (push_log_with_payload env.now "img-tx" method (some t) m)

-- The metrics, the commands sent to the upstream channel, and how the loop goes on.
abbrev pub Outcome : Type 0
Outcome = Option Metrics × List Text × Flow

unfoldable pub handle_command : Env → Text → Option Metrics → Outcome
handle_command env [] m = (m, [], next)
handle_command env (c ∷ cs) m = (
  log_command env (c ∷ cs) m,
  if env.upstream_open then (c ∷ cs) ∷ [] else [],
  if env.upstream_open then next else stop,
)

-- The bytes that `read_line_limited` brought.
unfoldable pub handle_line : Env → Bytes → Option Metrics → Outcome
handle_line env line_buf m =
    if ltb max_line_bytes (length line_buf)
    then (m, [], stop)
    else handle_command env (trim (from_utf8_lossy line_buf)) m

-- The read loop of `handle_client`. Each turn but the last takes a byte off the stream at least.
unfoldable pub read_loop : ℕ → Env → Stream → Option Metrics → Outcome
unfolding read_line_limited
read_loop zero env s m = (m, [], stop)
read_loop (suc fuel) env s m = elim (read_line_limited max_line_bytes s) [
  | failed ↦ (m, [], error)
  | read n line_buf rest ↦
      let (m', sent, flow) = handle_line env line_buf m in
      let (m'', later, end) = read_loop fuel env rest m' in
      if n == 0 then (m, [], stop) else elim flow [
        | next ↦ (m'', sent ++ later, end)
        | stop ↦ (m', sent, stop)
        | error ↦ (m', sent, error)
      ]
]

unfoldable pub handle_client : Env → Stream → Option Metrics → Outcome
unfolding read_loop
handle_client env s m = read_loop (suc (length (content s))) env s m

-- What `frame_rx.recv` gives, with whether the write to the client goes well.
pub data Received : Type 0 where
  received : Bytes → (written : Bool) → Received
  lagged : ℕ → Received
  closed : Received

-- The fan-out task: the frames that are written to the client.
unfoldable pub fan_out : List Received → List Bytes
fan_out [] = []
fan_out (received bs written ∷ rs) = let later = fan_out rs in if written then bs ∷ later else []
fan_out (lagged n ∷ rs) = fan_out rs
fan_out (closed ∷ rs) = []

-- One turn of the heartbeat loop, after its sleep: the next id, the message, and whether it goes on.
unfoldable pub heartbeat : Bool → ℕ → ℕ × List Text × Bool
heartbeat upstream_open id = (
  u64 (id + 1),
  if upstream_open
      then (codes "{\"id\":"
          ++ (decimal id ++ codes ",\"method\":\"test_connection\",\"params\":\"verify\"}"))
        ∷ []
      else [],
  upstream_open,
)

-- What the writer loop of `run` meets: a command, with whether its write goes well; the end of all
-- senders; or the end of the reader.
pub data Event : Type 0 where
  command : Text → (written : Bool) → Event
  all_dropped reader_dead : Event

-- How the writer loop ended: it waits for more, shuts down, reconnects, or panics on a slice of a
-- message for the debug log.
pub data Writer : Type 0 where
  waiting shut_down reconnecting panicked : Writer

unfoldable pub write_commands : Bool → List Event → Text × Writer
write_commands debug_on [] = ([], waiting)
write_commands debug_on (command msg written ∷ es) =
    let (later, w) = write_commands debug_on es in
    if debug_on && not (can_slice 200 msg)
    then ([], panicked)
    else if written
    then ((msg ++ codes "\r\n") ++ later, w)
    else ([], reconnecting)
write_commands debug_on (all_dropped ∷ es) = ([], shut_down)
write_commands debug_on (reader_dead ∷ es) = ([], reconnecting)
